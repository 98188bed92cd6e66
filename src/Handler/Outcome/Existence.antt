-- ===== src/Handler/Outcome/Existence.antt =====
-- What a question about a name of the zone gets.
use a_healthy_dns.Base.{
  ℕ, ◌≡◌, ◌≢◌, ◌⊎◌, sym, subst, ◌∙◌, inl, inr, false, none, some, [], arith, ◌==◌, Bool-cases,
  Option-cases, Result, ok, ◌>>=◌,
}
use a_healthy_dns.Dns.Names.{Names}
use a_healthy_dns.Dns.Rdatasets.{Rdatasets, Rdataset, any_type}
use a_healthy_dns.Dns.Zones.{Zones}
use a_healthy_dns.Dns.Messages.{Question}
use a_healthy_dns.Handler.Outcome.{
  ResponseOutcome, build_answer, build_rfc8482_hinfo_answer, is_empty_non_terminal,
  classify_in_zone, classify_existing_node_query, classify_empty_non_terminal_query, noerror,
  nxdomain,
}
use a_healthy_dns.Handler.Outcome.Nodes.{
  positive, negative, HasNode, HasNoNode, HasBelow, Exists, node_cases, ent_true, ent_cases,
  nil_cases,
}

module _ (names : Names) (rdatasets : Rdatasets) (zones : Zones names rdatasets) where
  open names use {Name, is_subdomain}
  open rdatasets use {Rdata}
  open zones use {Txn, Node, get_node, node_truth, get_rdataset, iterate_names}

  module _ (question : Question names) (origin name : Name) (txn : Txn) (rdclass : ℕ) where
    -- The node at the name, if any, has no record of the type that is asked for.
    abbrev pub HasNoData : Type 0
    HasNoData =
        ((n : Node) × HasNode names rdatasets zones txn name n
          × ((get_rdataset n rdclass question.rdtype ≡ none)
              ⊎ ((s : Rdataset Rdata) × (get_rdataset n rdclass question.rdtype ≡ some s)
                  × (s.items ≡ []))))
        ⊎ HasNoNode names rdatasets zones txn name

    abbrev outcome : Result (ResponseOutcome names rdatasets)
    outcome = classify_in_zone names rdatasets zones question origin name txn rdclass

    -- The answer to a question of type ANY.
    abbrev pub any_outcome : Result (ResponseOutcome names rdatasets)
    any_outcome = do
      answer ← build_rfc8482_hinfo_answer names rdatasets zones question.name txn
      ok (positive names rdatasets zones answer)

    pub data Verdict : Result (ResponseOutcome names rdatasets) → Type 0 where
      absent :
          ¬ Exists names rdatasets zones txn name
          → Verdict (ok (negative names rdatasets zones nxdomain origin txn))
      any_question :
          Exists names rdatasets zones txn name → question.rdtype ≡ any_type → Verdict any_outcome
      data_found :
          (n : Node) (s : Rdataset Rdata)
          → HasNode names rdatasets zones txn name n
          → question.rdtype ≢ any_type
          → get_rdataset n rdclass question.rdtype ≡ some s
          → s.items ≢ []
          → Verdict
              (ok (positive names rdatasets zones (build_answer names rdatasets question.name s)))
      no_data :
          Exists names rdatasets zones txn name
          → question.rdtype ≢ any_type
          → HasNoData
          → Verdict (ok (negative names rdatasets zones noerror origin txn))

    with_node :
        (n : Node)
        → HasNode names rdatasets zones txn name n
        → outcome ≡ classify_existing_node_query names rdatasets zones question origin txn n rdclass
    unfolding classify_in_zone
    with_node n h = ground arith

    without_node_below :
        HasNoNode names rdatasets zones txn name
        → HasBelow names rdatasets zones txn name
        → outcome ≡ classify_empty_non_terminal_query names rdatasets zones question origin txn
    unfolding classify_in_zone
    without_node_below h b = ground (arith, ent_true names rdatasets zones txn name b)

    without_node :
        HasNoNode names rdatasets zones txn name
        → is_empty_non_terminal names rdatasets zones name txn ≡ false
        → outcome ≡ ok (negative names rdatasets zones nxdomain origin txn)
    unfolding classify_in_zone negative
    without_node h e = ground arith

    node_any :
        (n : Node)
        → question.rdtype ≡ any_type
        → classify_existing_node_query names rdatasets zones question origin txn n rdclass
          ≡ any_outcome
    unfolding classify_existing_node_query positive
    node_any n e = ground arith

    node_found :
        (n : Node) (s : Rdataset Rdata)
        → question.rdtype ≢ any_type
        → get_rdataset n rdclass question.rdtype ≡ some s
        → s.items ≢ []
        → classify_existing_node_query names rdatasets zones question origin txn n rdclass
          ≡ ok (positive names rdatasets zones (build_answer names rdatasets question.name s))
    unfolding classify_existing_node_query positive
    node_found n s e g f = ground arith

    node_no_data :
        (n : Node)
        → question.rdtype ≢ any_type
        → (get_rdataset n rdclass question.rdtype ≡ none)
          ⊎ ((s : Rdataset Rdata) × (get_rdataset n rdclass question.rdtype ≡ some s)
              × (s.items ≡ []))
        → classify_existing_node_query names rdatasets zones question origin txn n rdclass
          ≡ ok (negative names rdatasets zones noerror origin txn)
    unfolding classify_existing_node_query negative
    node_no_data n e (inl g) = ground arith
    node_no_data n e (inr (s, g, f)) = ground arith

    below_any :
        question.rdtype ≡ any_type
        → classify_empty_non_terminal_query names rdatasets zones question origin txn ≡ any_outcome
    unfolding classify_empty_non_terminal_query positive
    below_any e = ground arith

    below_no_data :
        question.rdtype ≢ any_type
        → classify_empty_non_terminal_query names rdatasets zones question origin txn
          ≡ ok (negative names rdatasets zones noerror origin txn)
    unfolding classify_empty_non_terminal_query negative
    below_no_data e = ground arith

    data_cases :
        (n : Node)
        → ((s : Rdataset Rdata) × (get_rdataset n rdclass question.rdtype ≡ some s)
            × (s.items ≢ []))
          ⊎ ((get_rdataset n rdclass question.rdtype ≡ none)
              ⊎ ((s : Rdataset Rdata) × (get_rdataset n rdclass question.rdtype ≡ some s)
                  × (s.items ≡ [])))
    data_cases n = elim (Option-cases (get_rdataset n rdclass question.rdtype)) [
      | inl e ↦ inr (inl e)
      | inr (s, e) ↦ elim (nil_cases names rdatasets zones s.items) [
        | inl h ↦ inr (inr (s, e, h))
        | inr h ↦ inl (s, e, h)
      ]
    ]

    any_cases : (question.rdtype ≡ any_type) ⊎ (question.rdtype ≢ any_type)
    any_cases = elim (Bool-cases (question.rdtype == any_type)) [
      | inl e ↦ inl (ground arith)
      | inr e ↦ inr (λ h. ground arith)
    ]

    node-Verdict : (n : Node) → HasNode names rdatasets zones txn name n → Verdict outcome
    node-Verdict n h = elim any_cases [
      | inl e ↦ subst Verdict (sym (with_node n h ∙ node_any n e)) (any_question (inl (n, h)) e)
      | inr e ↦ elim (data_cases n) [
        | inl (s, g, f) ↦
            subst Verdict (sym (with_node n h ∙ node_found n s e g f)) (data_found n s h e g f)
        | inr d ↦
            subst Verdict (sym (with_node n h ∙ node_no_data n e d))
              (no_data (inl (n, h)) e (inl (n, h, d)))
      ]
    ]

    below-Verdict :
        HasNoNode names rdatasets zones txn name
        → HasBelow names rdatasets zones txn name
        → Verdict outcome
    below-Verdict h b = elim any_cases [
      | inl e ↦ subst Verdict (sym (without_node_below h b ∙ below_any e)) (any_question (inr b) e)
      | inr e ↦
          subst Verdict (sym (without_node_below h b ∙ below_no_data e)) (no_data (inr b) e (inr h))
    ]

    HasNode-HasNoNode :
        (n : Node)
        → HasNode names rdatasets zones txn name n
        → HasNoNode names rdatasets zones txn name
        → ⊥
    HasNode-HasNoNode n h (inl e) = cc (h.found)
    HasNode-HasNoNode n h (inr (m, e, f)) = ground arith

    -- A question about a name of the zone: NXDOMAIN if neither the name nor a name below it is in
    -- the zone; the synthesised HINFO for type ANY; the record set of the node, if it has records of
    -- the type; and else no data.
    pub classify_in_zone-Verdict : Verdict outcome
    classify_in_zone-Verdict = elim (node_cases names rdatasets zones txn name) [
      | inl (n, h) ↦ node-Verdict n h
      | inr h ↦ elim (ent_cases names rdatasets zones txn name) [
        | inl b ↦ below-Verdict h b
        | inr (b, e) ↦
            subst Verdict (sym (without_node h e))
              (absent (λ x. elim x [ inl (n, k) ↦ HasNode-HasNoNode n k h | inr k ↦ b k ]))
      ]
    ]
