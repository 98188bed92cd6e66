-- ===== src/Updater/Rebuild/Published.antt =====
-- What a rebuilt zone holds.
use a_healthy_dns.Base.{
  ℕ, ◌≡◌, ◌≢◌, ◌⊎◌, refl, sym, ap, ◌∙◌, inl, inr, true, false, Option, none, some, List, [], ◌∷◌,
  arith, any, Bool-cases, Option-cases, ok, >>=-eq-ok,
}
use a_healthy_dns.Base.Int.{ℤ}
use a_healthy_dns.Dns.Names.{Names, same_owner}
use a_healthy_dns.Dns.Rdatasets.{Rdatasets, RdatasetsLaws, Rdataset, a_type}
use a_healthy_dns.Dns.Zones.{cname_type, Zones, ZonesLaws}
use a_healthy_dns.Records.HealthyRecord.{AHealthyRecord, make_a_record, a_rdataset, published_ips}
use a_healthy_dns.Records.Time.{calculate_a_ttl}
use a_healthy_dns.Base.Text.{Text}
use a_healthy_dns.Updater.Rebuild.{delete_all, clear_zone, add_if, add_a_record_to_zone}

module _ {names : Names} (Key : Type 0) {rdatasets : Rdatasets} (zones : Zones names rdatasets)
    {origin : names.Name} (laws : ZonesLaws zones origin) (set_laws : RdatasetsLaws rdatasets) where
  open names use {Name, name_eq}
  open zones use {Txn, get, iterate_names, delete, add}

  abbrev after_delete : Txn → List Name → Txn
  after_delete = delete_all names Key rdatasets zones

  get-delete_all :
      (ns : List Name) (txn : Txn) (name : Name) (rdtype : ℕ)
      → (any (λ n. same_owner names origin n name) ns ≡ true) ⊎ (get txn name rdtype ≡ none)
      → get (after_delete txn ns) name rdtype ≡ none
  unfolding delete_all
  get-delete_all [] txn name rdtype (inl h) = cc
  get-delete_all [] txn name rdtype (inr h) = h
  get-delete_all (n ∷ ns) txn name rdtype h = elim (Bool-cases (same_owner names origin n name)) [
    | inl e ↦
        get-delete_all ns (delete txn n) name rdtype
          (inr (laws.get_delete_same txn n name rdtype e))
    | inr e ↦ elim h [
      | inl k ↦ get-delete_all ns (delete txn n) name rdtype (inl (ground arith))
      | inr k ↦
          get-delete_all ns (delete txn n) name rdtype
            (inr (laws.get_delete_other txn n name rdtype e ∙ k))
    ]
  ]

  -- Nothing is left in a cleared zone.
  pub get-clear_zone :
      (txn : Txn) (name : Name) (rdtype : ℕ)
      → get (clear_zone names Key rdatasets zones txn) name rdtype ≡ none
  unfolding clear_zone
  get-clear_zone txn name rdtype =
      get-delete_all (iterate_names txn) txn name rdtype
        (elim (Option-cases (get txn name rdtype)) [
          | inl e ↦ inr e
          | inr (s, e) ↦ inl (laws.get_listed txn name rdtype s e)
        ])

  make_a_record-type :
      (max_interval : ℤ) (r : AHealthyRecord names) (s : Rdataset rdatasets.Rdata)
      → make_a_record names rdatasets max_interval r ≡ ok (some s)
      → s.rdtype ≡ a_type
  unfolding make_a_record a_rdataset
  make_a_record-type max_interval r s e = go (published_ips names r) e
    where
      go :
          (ips : List Text)
          → a_rdataset names rdatasets max_interval ips ≡ ok (some s)
          → s.rdtype ≡ a_type
      go [] h = cc
      go (ip ∷ ips) h =
          let (t, made, same) =
            >>=-eq-ok (rdatasets.from_text 1 1 (calculate_a_ttl max_interval) (ip ∷ ips)) _ h in
          set_laws.from_text_type 1 1 (calculate_a_ttl max_interval) (ip ∷ ips) s (ground arith)

  -- Setting one record touches its name and the type A alone.
  pub one_other :
      (max_interval : ℤ) (r : AHealthyRecord names) (txn after : Txn) (name : Name) (rdtype : ℕ)
      → add_a_record_to_zone names Key rdatasets zones max_interval r txn ≡ ok after
      → rdtype ≢ cname_type
      → (same_owner names origin r.subdomain name ≡ false) ⊎ (rdtype ≢ a_type)
      → get after name rdtype ≡ get txn name rdtype
  unfolding add_a_record_to_zone add_if
  one_other max_interval r txn after name rdtype e c o =
      let (d, made, added) = >>=-eq-ok (make_a_record names rdatasets max_interval r) _ e in
      go d made added
    where
      go :
          (d : Option (Rdataset rdatasets.Rdata))
          → make_a_record names rdatasets max_interval r ≡ ok d
          → add_if names Key rdatasets zones txn r.subdomain d ≡ ok after
          → get after name rdtype ≡ get txn name rdtype
      go none m a = let same : txn ≡ after = ground arith in rw same refl
      go (some s) m a =
          let t = make_a_record-type max_interval r s m in
          laws.get_add_other txn after r.subdomain name s rdtype (omega (arith, t)) c
            (elim o [ inl h ↦ inl h | inr h ↦ inr (λ k. h (sym k ∙ t)) ]) a

  pub one_same :
      (max_interval : ℤ) (r : AHealthyRecord names) (txn after : Txn)
      → add_a_record_to_zone names Key rdatasets zones max_interval r txn ≡ ok after
      → same_owner names origin r.subdomain r.subdomain ≡ true
      → get txn r.subdomain a_type ≡ none
      → make_a_record names rdatasets max_interval r ≡ ok (get after r.subdomain a_type)
  unfolding add_a_record_to_zone add_if
  one_same max_interval r txn after e self n =
      let (d, made, added) = >>=-eq-ok (make_a_record names rdatasets max_interval r) _ e in
      go d made added
    where
      go :
          (d : Option (Rdataset rdatasets.Rdata))
          → make_a_record names rdatasets max_interval r ≡ ok d
          → add_if names Key rdatasets zones txn r.subdomain d ≡ ok after
          → make_a_record names rdatasets max_interval r ≡ ok (get after r.subdomain a_type)
      go none m a =
          let same : txn ≡ after = ground arith in
          m ∙ ap ok (sym n ∙ ap (λ t. get t r.subdomain a_type) same)
      go (some s) m a =
          let t = make_a_record-type max_interval r s m in
          let got =
            laws.get_add_new txn after r.subdomain r.subdomain s self (omega (arith, t))
              (ap (get txn r.subdomain) t ∙ n) a in
          m ∙ ap ok (sym got ∙ ap (get after r.subdomain) t)
