-- ===== src/Handler/Outcome/Found.antt =====
-- What the verdict on a name comes to, by the record set at its node.
use a_healthy_dns.Base.{
  ℕ, ◌≡◌, ◌≢◌, refl, sym, ap, ◌∙◌, inl, inr, Bool, true, false, Option, none, some, [], arith,
  Result, ok,
}
use a_healthy_dns.Dns.Names.{Names}
use a_healthy_dns.Dns.Rdatasets.{Rdatasets, Rdataset, any_type}
use a_healthy_dns.Dns.Zones.{Zones}
use a_healthy_dns.Dns.Messages.{Question}
use a_healthy_dns.Handler.Outcome.{ResponseOutcome, build_answer}
use a_healthy_dns.Handler.Outcome.Nodes.{HasNode, positive, negative}
use a_healthy_dns.Handler.Outcome.Existence.{Verdict, absent, any_question, data_found, no_data}

-- An authoritative outcome with an empty answer.
abbrev pub HasNoAnswer :
    {names : Names} {rdatasets : Rdatasets} → Result (ResponseOutcome names rdatasets) → Type 0
HasNoAnswer {names} {rdatasets} r =
    (o : ResponseOutcome names rdatasets) × (r ≡ ok o)
    × (o.answer ≡ [])
    × (o.is_authoritative ≡ true)

module _ (names : Names) (rdatasets : Rdatasets) (zones : Zones names rdatasets) where
  open names use {Name}
  open rdatasets use {Rdata}
  open zones use {Txn, Node, get_node, node_truth, get_rdataset}

  module _ (question : Question names) (origin name : Name) (txn : Txn) (rdclass : ℕ)
      (plain : question.rdtype ≢ any_type) where
    -- Where the node has a record set of the type, with a record in it, the verdict is that set.
    pub Verdict-found :
        (n : Node) (s : Rdataset Rdata)
        → HasNode names rdatasets zones txn name n
        → get_rdataset n rdclass question.rdtype ≡ some s
        → s.items ≢ []
        → (r : Result (ResponseOutcome names rdatasets))
        → Verdict names rdatasets zones question origin name txn rdclass r
        → r ≡ ok (positive names rdatasets zones (build_answer names rdatasets question.name s))
    Verdict-found n s h e i _ (absent k) = absurd (k (inl (n, h)))
    Verdict-found n s h e i _ (any_question k a) = absurd (plain a)
    Verdict-found n s h e i _ (data_found m t k p f j) =
        let same_node : m ≡ n = let both = sym k.found ∙ h.found in ground arith in
        let both : some t ≡ some s =
          sym f ∙ ap (λ y. get_rdataset y rdclass question.rdtype) same_node ∙ e in
        let same : t ≡ s = ground arith in
        ap (λ y. ok (positive names rdatasets zones (build_answer names rdatasets question.name y)))
          same
    Verdict-found n s h e i _ (no_data k p (inl (m, l, f))) =
        let same_node : m ≡ n = let both = sym l.found ∙ h.found in ground arith in
        let read = ap (λ y. get_rdataset y rdclass question.rdtype) same_node ∙ e in
        absurd (elim f [
          | inl none_there ↦ clash none_there read
          | inr (t, there, empty) ↦
              let both : some t ≡ some s = sym there ∙ read in
              let same : t ≡ s = ground arith in
              i (ap (λ (y : Rdataset Rdata). y.items) (sym same) ∙ empty)
        ])
      where
        clash : {o : Option (Rdataset Rdata)} → o ≡ none → o ≡ some s → ⊥
        clash a b = cc
    Verdict-found n s h e i _ (no_data k p (inr f)) = absurd (elim f [
      | inl a ↦ clash a h.found
      | inr (m, a, b) ↦
          let both : some m ≡ some n = sym a ∙ h.found in
          let same : m ≡ n = ground arith in unclear (ap node_truth (sym same) ∙ b) h.holds
    ])
      where
        clash : {o : Option Node} → o ≡ none → o ≡ some n → ⊥
        clash a b = cc

        unclear : {b : Bool} → b ≡ false → b ≡ true → ⊥
        unclear a b = cc

    -- Where no node has a record set of the type, the verdict has an empty answer.
    pub Verdict-empty :
        ((n : Node) → get_node txn name ≡ some n → get_rdataset n rdclass question.rdtype ≡ none)
        → (r : Result (ResponseOutcome names rdatasets))
        → Verdict names rdatasets zones question origin name txn rdclass r
        → HasNoAnswer r
    unfolding negative
    Verdict-empty h _ (absent k) = (_, refl, refl, refl)
    Verdict-empty h _ (any_question k a) = absurd (plain a)
    Verdict-empty h _ (data_found m t k p f j) =
        let clash = h m k.found in absurd (let both : none ≡ some t = sym clash ∙ f in cc)
    Verdict-empty h _ (no_data k p d) = (_, refl, refl, refl)
