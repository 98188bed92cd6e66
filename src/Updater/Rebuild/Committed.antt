-- ===== src/Updater/Rebuild/Committed.antt =====
-- What a call of `initialize_zone` commits.
use a_healthy_dns.Base.{
  ℕ, ◌≡◌, ◌≢◌, ◌⊎◌, refl, sym, ap, ◌∙◌, inl, inr, false, none, List, [], ◌∷◌, arith, All, All-map,
  Bool-cases, ok, >>=-eq-ok,
}
use a_healthy_dns.Base.Int.{ℤ}
use a_healthy_dns.Dns.Names.{Names, NamesLaws, same_owner}
use a_healthy_dns.Dns.Rdatasets.{Rdatasets, RdatasetsLaws, a_type}
use a_healthy_dns.Dns.Zones.{cname_type, Zones, ZonesLaws}
use a_healthy_dns.Records.HealthyRecord.{AHealthyRecord, make_a_record}
use a_healthy_dns.Updater.Rebuild.{add_a_record_to_zone, add_a_records}
use a_healthy_dns.Updater.Rebuild.Published.{one_other, one_same}

module _ {names : Names} (Key : Type 0) {rdatasets : Rdatasets} (zones : Zones names rdatasets)
    (name_laws : NamesLaws names) {origin : names.Name} (laws : ZonesLaws zones origin)
    (set_laws : RdatasetsLaws rdatasets) where
  open names use {Name, name_eq, empty}
  open zones use {Txn, get, reader, add}

  -- No two records have the same name.
  abbrev pub AreDistinct : List (AHealthyRecord names) → Type 0
  AreDistinct [] = Unit
  AreDistinct (r ∷ rs) =
      All (λ q. same_owner names origin r.subdomain q.subdomain ≡ false) rs × AreDistinct rs

  flip : (a b : Name) → same_owner names origin a b ≡ false → same_owner names origin b a ≡ false
  flip a b h = elim (Bool-cases (same_owner names origin b a)) [
    | inl e ↦
        let k =
          name_laws.equality.eq_sym (names.relativize b origin) (names.relativize a origin) e in
        cc
    | inr e ↦ e
  ]

  abbrev pub Adds : ℤ → List (AHealthyRecord names) → Txn → Txn → Type 0
  Adds max_interval rs txn after =
      add_a_records names Key rdatasets zones max_interval rs txn ≡ ok after

  -- No record of the list has the name.
  abbrev pub IsUnnamed : Name → List (AHealthyRecord names) → Type 0
  IsUnnamed name = All (λ r. same_owner names origin r.subdomain name ≡ false)

  pub many_other :
      (max_interval : ℤ) (rs : List (AHealthyRecord names)) (txn after : Txn) (name : Name)
      (rdtype : ℕ)
      → Adds max_interval rs txn after
      → rdtype ≢ cname_type
      → IsUnnamed name rs ⊎ (rdtype ≢ a_type)
      → get after name rdtype ≡ get txn name rdtype
  unfolding add_a_records
  many_other max_interval [] txn after name rdtype e c o =
      let same : txn ≡ after = ground arith in rw same refl
  many_other max_interval (r ∷ rs) txn after name rdtype e c o =
      let (t, first, rest) =
        >>=-eq-ok (add_a_record_to_zone names Key rdatasets zones max_interval r txn) _ e in
      many_other max_interval rs t after name rdtype rest c
        (elim o [ inl h ↦ inl h.1 | inr h ↦ inr h ])
      ∙ one_other Key zones laws set_laws max_interval r txn t name rdtype first c
          (elim o [ inl h ↦ inl h.0 | inr h ↦ inr h ])

  still_none :
      (max_interval : ℤ) (r : AHealthyRecord names) (txn t : Txn) (rs : List (AHealthyRecord names))
      → add_a_record_to_zone names Key rdatasets zones max_interval r txn ≡ ok t
      → All (λ q. same_owner names origin r.subdomain q.subdomain ≡ false) rs
      → All (λ q. get txn q.subdomain a_type ≡ none) rs
      → All (λ q. get t q.subdomain a_type ≡ none) rs
  still_none max_interval r txn t [] e d n = tt
  still_none max_interval r txn t (q ∷ rs) e d n = (
    one_other Key zones laws set_laws max_interval r txn t q.subdomain a_type e (omega arith)
          (inl d.0)
        ∙ n.0,
    still_none max_interval r txn t rs e d.1 n.1,
  )

  -- At each record's name stands the A record set that is made of the record, or none.
  abbrev pub AreSet : ℤ → Txn → List (AHealthyRecord names) → Type 0
  AreSet max_interval txn =
      All (λ r. make_a_record names rdatasets max_interval r ≡ ok (get txn r.subdomain a_type))

  pub many_same :
      (max_interval : ℤ) (rs : List (AHealthyRecord names)) (txn after : Txn)
      → Adds max_interval rs txn after
      → AreDistinct rs
      → All (λ r. get txn r.subdomain a_type ≡ none) rs
      → AreSet max_interval after rs
  unfolding add_a_records
  many_same max_interval [] txn after e d n = tt
  many_same max_interval (r ∷ rs) txn after e d n =
      let (t, first, rest) =
        >>=-eq-ok (add_a_record_to_zone names Key rdatasets zones max_interval r txn) _ e in
      let self = name_laws.equality.eq_refl (names.relativize r.subdomain origin) in
      let kept =
        many_other max_interval rs t after r.subdomain a_type rest (omega arith)
          (inl (All-map (λ q h. flip r.subdomain q.subdomain h) rs d.0)) in
      (
        one_same Key zones laws set_laws max_interval r txn t first self n.0 ∙ ap ok (sym kept),
        many_same max_interval rs t after rest d.1
            (still_none max_interval r txn t rs first d.0 n.1),
      )
