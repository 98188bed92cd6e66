-- ===== src/Handler/Outcome/Shape.antt =====
-- Questions inside and outside the configured zones.
use a_healthy_dns.Base.{
  ℕ, ◌<◌, ◌≡◌, ◌⊎◌, ◌↔◌, sym, subst, ◌∙◌, inl, inr, true, false, none, some, [], arith,
  Option-cases, Result, ok, >>=-eq-ok,
}
use a_healthy_dns.Dns.Names.{Names}
use a_healthy_dns.Dns.Rdatasets.{Rdatasets}
use a_healthy_dns.Dns.Zones.{Zones}
use a_healthy_dns.Dns.Messages.{Question}
use a_healthy_dns.Records.ZoneOrigins.{ZoneOrigins, origin_for, relativize}
use a_healthy_dns.Handler.Outcome.{
  ResponseOutcome, classify_query, classify_in_zone, build_rfc8482_hinfo_answer, noerror, nxdomain,
  refused,
}
use a_healthy_dns.Handler.Outcome.Existence.{
  Verdict, absent, any_question, data_found, no_data, classify_in_zone-Verdict, any_outcome,
}
use a_healthy_dns.Handler.Outcome.Nodes.{positive, negative}

module _ (names : Names) (rdatasets : Rdatasets) (zones : Zones names rdatasets)
    (question : Question names) (zone : zones.Zone) (zone_origins : ZoneOrigins names) where
  open names use {Name, is_absolute, relativize as relative_to}

  abbrev outcome : Result (ResponseOutcome names rdatasets)
  outcome = classify_query names rdatasets zones question zone zone_origins

  in_zone :
      (origin : Name)
      → is_absolute question.name ≡ true
      → origin_for names zone_origins question.name ≡ some origin
      → outcome
        ≡ classify_in_zone names rdatasets zones question origin
            (relative_to question.name origin)
            (zones.reader zone)
            (zones.rdclass zone)
  unfolding classify_query relativize
  in_zone origin a e = ground arith

  outside :
      origin_for names zone_origins question.name ≡ none
      → outcome
        ≡ ok (record { rcode = refused; is_authoritative = false; answer = []; authority = [] })
  unfolding classify_query
  outside e = ground arith

  -- A question for an absolute name that lies in a configured zone is decided by the committed
  -- version of the zone, under the name relative to that zone: NXDOMAIN with the SOA if neither
  -- the name nor a name below it is in the zone; the synthesised HINFO for type ANY; the record
  -- set of the node, if it has records of the type; and else no data, with the SOA.
  pub classify_query-Verdict :
      (origin : Name)
      → is_absolute question.name ≡ true
      → origin_for names zone_origins question.name ≡ some origin
      → Verdict names rdatasets zones question origin
          (relative_to question.name origin)
          (zones.reader zone)
          (zones.rdclass zone)
          outcome
  classify_query-Verdict origin a e =
      let name = relative_to question.name origin in
      subst
        (Verdict names rdatasets zones question origin name (zones.reader zone)
          (zones.rdclass zone))
        (sym (in_zone origin a e))
        (classify_in_zone-Verdict names rdatasets zones question origin name (zones.reader zone)
          (zones.rdclass zone))

  module _ (origin name : Name) (txn : zones.Txn) (rdclass : ℕ) where
    -- What an outcome for a name of the zone is.
    abbrev IsServed : ResponseOutcome names rdatasets → Type 0
    IsServed o =
        ((o.rcode ≡ noerror) ⊎ ((o.rcode ≡ nxdomain) × (o.answer ≡ [])))
        × (o.is_authoritative ≡ true)

    any_outcome-IsServed :
        (o : ResponseOutcome names rdatasets)
        → any_outcome names rdatasets zones question origin name txn rdclass ≡ ok o
        → IsServed o
    unfolding positive
    any_outcome-IsServed o e =
        let (answer, made, e') =
          >>=-eq-ok (build_rfc8482_hinfo_answer names rdatasets zones question.name txn) _ e in
        ground arith

    Verdict-IsServed :
        {r : Result (ResponseOutcome names rdatasets)}
        → Verdict names rdatasets zones question origin name txn rdclass r
        → (o : ResponseOutcome names rdatasets) → r ≡ ok o
        → IsServed o
    unfolding positive negative
    Verdict-IsServed (absent x) o e = ground arith
    Verdict-IsServed (any_question x t) o e = any_outcome-IsServed o e
    Verdict-IsServed (data_found n s h t g f) o e = ground arith
    Verdict-IsServed (no_data x t d) o e = ground arith

  -- When a question for an absolute name is classified with an outcome, the outcome is REFUSED
  -- exactly when the name lies in no configured zone, and just then it is not authoritative.
  pub refused_iff :
      (o : ResponseOutcome names rdatasets)
      → is_absolute question.name ≡ true
      → outcome ≡ ok o
      → ((o.rcode ≡ refused) ↔ (origin_for names zone_origins question.name ≡ none))
        × ((o.is_authoritative ≡ false) ↔ (origin_for names zone_origins question.name ≡ none))
  refused_iff o a e = elim (Option-cases (origin_for names zone_origins question.name)) [
    | inl n ↦
        let same = sym (outside n) ∙ e in ((λ _. n, λ _. ground arith), (λ _. n, λ _. ground arith))
    | inr (origin, f) ↦
        let s =
          Verdict-IsServed origin (relative_to question.name origin) (zones.reader zone)
            (zones.rdclass zone) (classify_query-Verdict origin a f) o e in
        ((λ r. ground arith, λ n. cc), (λ r. ground arith, λ n. cc))
  ]

  -- The code of an outcome fits into the header of a message.
  pub rcode_lt :
      (o : ResponseOutcome names rdatasets)
      → is_absolute question.name ≡ true
      → outcome ≡ ok o
      → o.rcode < 16
  rcode_lt o a e = elim (Option-cases (origin_for names zone_origins question.name)) [
    | inl n ↦ let same = sym (outside n) ∙ e in ground arith
    | inr (origin, f) ↦
        let s =
          Verdict-IsServed origin (relative_to question.name origin) (zones.reader zone)
            (zones.rdclass zone) (classify_query-Verdict origin a f) o e in
        elim s.0 [ inl h ↦ omega (arith, h) | inr h ↦ omega (arith, h.0) ]
  ]
