-- ===== src/Updater/Rebuild/Contents.antt =====
-- The contents of the zone that `initialize_zone` commits.
use a_healthy_dns.Base.{
  ℕ, ◌≡◌, ◌≢◌, ◌⊎◌, refl, sym, ap, subst, ◌∙◌, inl, inr, Option, none, some, List, arith, All-map,
  All-of_mem, Result, ok, >>=-eq-ok,
}
use a_healthy_dns.Base.Int.{ℤ}
use a_healthy_dns.Dns.Names.{Names, NamesLaws}
use a_healthy_dns.Dns.Rdatasets.{Rdatasets, RdatasetsLaws, Rdataset, a_type, ns_type, soa_type}
use a_healthy_dns.Dns.Zones.{cname_type, Zones, ZonesLaws}
use a_healthy_dns.Records.Dnssec.{RrSigKey, next_rrsig_key}
use a_healthy_dns.Records.Soa.{SoaIterator, next_soa_record}
use a_healthy_dns.Records.Soa.Sets.{next_soa_record-type}
use a_healthy_dns.Updater.State.{Updater, RrSigAction}
use a_healthy_dns.Updater.Rebuild.{
  clear_zone, add_a_records, add_soa_and_a_records, add_records_to_zone, sign_and_commit, sign_zone,
  sign_with, initialize_zone,
}
use a_healthy_dns.Updater.Rebuild.Published.{get-clear_zone}
use a_healthy_dns.Updater.Rebuild.Committed.{AreDistinct, AreSet, IsUnnamed, many_other, many_same}

-- The three types whose records a reader is asked for here.
abbrev pub IsPlain : ℕ → Type 0
IsPlain rdtype = (rdtype ≡ a_type) ⊎ (rdtype ≡ ns_type) ⊎ (rdtype ≡ soa_type)

module _ {names : Names} {Key : Type 0} {rdatasets : Rdatasets} (zones : Zones names rdatasets)
    (name_laws : NamesLaws names) {origin : names.Name} (laws : ZonesLaws zones origin)
    (set_laws : RdatasetsLaws rdatasets) where
  open names use {Name, name_eq, empty}
  open zones use {Txn, get, reader, add}

  -- What a transaction holds after a rebuild: the NS set and the next SOA set at the apex, at
  -- each record's name the A set that is made of the record, if any, and no other A set.
  pub record IsContent (self : Updater names Key rdatasets zones) (readings : List ℕ)
      (next : SoaIterator names rdatasets) (rest : List ℕ) (txn : Txn) : Type 0 where
    pub ns : get txn empty ns_type ≡ some self.ns_rec
    pub soa : Rdataset rdatasets.Rdata
    pub soa_made :
        next_soa_record names rdatasets self.soa_rec readings ≡ ok (some (soa, next, rest))
    pub soa_set : get txn empty soa_type ≡ some soa
    pub records : AreSet Key zones name_laws laws set_laws self.max_interval txn self.a_recs
    pub others :
        (name : Name)
        → IsUnnamed Key zones name_laws laws set_laws name self.a_recs
        → get txn name a_type ≡ none

  module _ (self : Updater names Key rdatasets zones) (readings : List ℕ)
      (ns : self.ns_rec.rdtype ≡ ns_type)
      (distinct : AreDistinct Key zones name_laws laws set_laws self.a_recs) (txn : Txn)
      (blank : (name : Name) (rdtype : ℕ) → get txn name rdtype ≡ none) where
    module _ (with_ns : Txn) (ns_added : add txn empty self.ns_rec ≡ ok with_ns)
        (soa : Rdataset rdatasets.Rdata) (next : SoaIterator names rdatasets) (rest : List ℕ)
        (made : next_soa_record names rdatasets self.soa_rec readings ≡ ok (some (soa, next, rest)))
        (with_soa : Txn) (soa_added : add with_ns empty soa ≡ ok with_soa) where
      soa_type_eq : soa.rdtype ≡ soa_type
      soa_type_eq = next_soa_record-type set_laws self.soa_rec next soa readings rest made

      ns_at_apex : get with_ns empty ns_type ≡ some self.ns_rec
      ns_at_apex =
          ap (get with_ns empty) (sym ns)
          ∙ laws.get_add_new txn with_ns empty empty self.ns_rec
              (name_laws.equality.eq_refl (names.relativize empty origin)) (omega (arith, ns))
              (blank empty self.ns_rec.rdtype) ns_added

      behind_ns :
          (name : Name) (rdtype : ℕ)
          → rdtype ≢ cname_type
          → rdtype ≢ ns_type
          → get with_ns name rdtype ≡ none
      behind_ns name rdtype c h =
          laws.get_add_other txn with_ns empty name self.ns_rec rdtype (omega (arith, ns)) c
            (inr (λ k. h (sym k ∙ ns))) ns_added
          ∙ blank name rdtype

      behind_soa :
          (name : Name) (rdtype : ℕ)
          → rdtype ≢ cname_type
          → rdtype ≢ soa_type
          → get with_soa name rdtype ≡ get with_ns name rdtype
      behind_soa name rdtype c h =
          laws.get_add_other with_ns with_soa empty name soa rdtype (omega (arith, soa_type_eq)) c
            (inr (λ k. h (sym k ∙ soa_type_eq))) soa_added

      soa_at_apex : get with_soa empty soa_type ≡ some soa
      soa_at_apex =
          ap (get with_soa empty) (sym soa_type_eq)
          ∙ laws.get_add_new with_ns with_soa empty empty soa
              (name_laws.equality.eq_refl (names.relativize empty origin))
              (omega (arith, soa_type_eq))
              (behind_ns empty soa.rdtype (omega (arith, soa_type_eq)) (omega (arith, soa_type_eq)))
              soa_added

      no_a : (name : Name) → get with_soa name a_type ≡ none
      no_a name =
          behind_soa name a_type (omega arith) (omega arith)
          ∙ behind_ns name a_type (omega arith) (omega arith)

      of_full :
          (full : Txn)
          → add_a_records names Key rdatasets zones self.max_interval self.a_recs with_soa ≡ ok full
          → IsContent self readings next rest full
      of_full full e =
          let keep =
            many_other Key zones name_laws laws set_laws self.max_interval self.a_recs with_soa
              full in
          record {
            ns =
                keep empty ns_type e (omega arith) (inr (omega arith))
                ∙ behind_soa empty ns_type (omega arith) (omega arith)
                ∙ ns_at_apex;
            soa = soa;
            soa_made = made;
            soa_set = keep empty soa_type e (omega arith) (inr (omega arith)) ∙ soa_at_apex;
            records =
                many_same Key zones name_laws laws set_laws self.max_interval self.a_recs with_soa
                  full e distinct (All-of_mem _ self.a_recs (λ r m. no_a r.subdomain));
            others = λ name h. keep name a_type e (omega arith) (inl h) ∙ no_a name;
          }

    of_next :
        (with_ns : Txn)
        (o : Option (Rdataset rdatasets.Rdata × SoaIterator names rdatasets × List ℕ)) (full : Txn)
        (next : SoaIterator names rdatasets) (rest : List ℕ)
        → add txn empty self.ns_rec ≡ ok with_ns
        → next_soa_record names rdatasets self.soa_rec readings ≡ ok o
        → add_soa_and_a_records names Key rdatasets zones self with_ns o
          ≡ ok (some (full, next, rest))
        → IsContent self readings next rest full
    unfolding add_soa_and_a_records
    of_next with_ns none full next rest a m h = cc
    of_next with_ns (some (soa, soa_rec, left)) full next rest a m h =
        let (with_soa, added, h') = >>=-eq-ok (add with_ns empty soa) _ h in
        let (done, filled, same) =
          >>=-eq-ok (add_a_records names Key rdatasets zones self.max_interval self.a_recs with_soa)
            _ h' in
        let full_eq : done ≡ full = ground arith in
        let next_eq : soa_rec ≡ next = ground arith in
        let rest_eq : left ≡ rest = ground arith in
        let made : next_soa_record names rdatasets self.soa_rec readings
            ≡ ok (some (soa, next, rest)) =
          ground arith in
        of_full with_ns a soa next rest made with_soa added full (filled ∙ ap ok full_eq)

    add_records_to_zone-IsContent :
        (full : Txn) (next : SoaIterator names rdatasets) (rest : List ℕ)
        → add_records_to_zone names Key rdatasets zones self readings txn
          ≡ ok (some (full, next, rest))
        → IsContent self readings next rest full
    unfolding add_records_to_zone
    add_records_to_zone-IsContent full next rest e =
        let (with_ns, ns_added, e') = >>=-eq-ok (add txn empty self.ns_rec) _ e in
        let (o, made, e'') =
          >>=-eq-ok (next_soa_record names rdatasets self.soa_rec readings) _ e' in
        of_next with_ns o full next rest ns_added made e''

  -- Signing adds records of other types: it leaves the A, NS and SOA sets as they are.
  abbrev pub Keeps : (Txn → RrSigKey Key → Result Txn) → Type 0
  Keeps sign =
      (txn after : Txn) (key : RrSigKey Key)
      → sign txn key ≡ ok after
      → (name : Name) (rdtype : ℕ) → IsPlain rdtype
      → get after name rdtype ≡ get txn name rdtype

  kept-IsContent :
      (self : Updater names Key rdatasets zones) (readings : List ℕ)
      (next : SoaIterator names rdatasets) (rest : List ℕ) (txn after : Txn)
      → ((name : Name) (rdtype : ℕ) → IsPlain rdtype → get after name rdtype ≡ get txn name rdtype)
      → IsContent self readings next rest txn
      → IsContent self readings next rest after
  kept-IsContent self readings next rest txn after k c = record {
    ns = k empty ns_type (inr (inl refl)) ∙ c.ns;
    soa = c.soa;
    soa_made = c.soa_made;
    soa_set = k empty soa_type (inr (inr refl)) ∙ c.soa_set;
    records =
        All-map (λ r h. h ∙ ap ok (sym (k r.subdomain a_type (inl refl)))) self.a_recs c.records;
    others = λ name h. k name a_type (inl refl) ∙ c.others name h;
  }

  module _ (sign : Txn → RrSigKey Key → Result Txn) (keeps : Keeps sign)
      (self : Updater names Key rdatasets zones) (readings : List ℕ) (now : ℤ) where
    kept_by_action :
        (txn : Txn) (action : Option (RrSigAction names Key rdatasets zones))
        (signed : Txn × Option (RrSigAction names Key rdatasets zones))
        → sign_with names Key rdatasets zones sign self.max_interval now txn action ≡ ok signed
        → (name : Name) (rdtype : ℕ) → IsPlain rdtype
        → get signed.0 name rdtype ≡ get txn name rdtype
    unfolding sign_with
    kept_by_action txn none signed e name rdtype p =
        let same : txn ≡ signed.0 = ground arith in ap (λ t. get t name rdtype) (sym same)
    kept_by_action txn (some action) signed e name rdtype p =
        let key = (next_rrsig_key Key self.max_interval action.key now).key in
        let (after, made, e') = >>=-eq-ok (sign txn key) _ e in
        let same : after ≡ signed.0 = ground arith in
        ap (λ t. get t name rdtype) (sym same) ∙ keeps txn after key made name rdtype p

    committed :
        (o : Option (Txn × SoaIterator names rdatasets × List ℕ))
        (self' : Updater names Key rdatasets zones) (rest : List ℕ)
        → sign_and_commit names Key rdatasets zones sign self now o ≡ ok (some (self', rest))
        → ((txn : Txn) (next : SoaIterator names rdatasets) (left : List ℕ)
            → o ≡ some (txn, next, left)
            → IsContent self readings next left txn)
        → IsContent self readings self'.soa_rec rest (reader self'.zone)
    unfolding sign_and_commit sign_zone
    committed none self' rest e c = cc
    committed (some (txn, soa_rec, left)) self' rest e c =
        let (signed, made, same) =
          >>=-eq-ok (sign_zone names Key rdatasets zones sign self now txn) _ e in
        let soa_eq : soa_rec ≡ self'.soa_rec = ground arith in
        let rest_eq : left ≡ rest = ground arith in
        let zone_eq : zones.commit self.zone signed.0 ≡ self'.zone = ground arith in
        let read : signed.0 ≡ reader self'.zone =
          sym (laws.reader_commit self.zone signed.0) ∙ ap reader zone_eq in
        let content =
          kept-IsContent self readings soa_rec left txn signed.0
            (kept_by_action txn self.rrsig_action signed made) (c txn soa_rec left refl) in
        subst (λ n. IsContent self readings n rest (reader self'.zone)) soa_eq
          (subst (λ l. IsContent self readings soa_rec l (reader self'.zone)) rest_eq
            (subst (IsContent self readings soa_rec left) read content))

    -- For an updater whose NS set has the type NS and whose records have different names, and a signer
    -- that keeps the A, NS and SOA sets: when `initialize_zone` returns, the committed zone holds the
    -- NS set of the updater and the next SOA set at its apex, at each record's name the A set made of
    -- the record, or none where none is made, and no A set at any other name, whatever the zone held
    -- before.
    pub initialize_zone-IsContent :
        (self' : Updater names Key rdatasets zones) (rest : List ℕ)
        → self.ns_rec.rdtype ≡ ns_type
        → AreDistinct Key zones name_laws laws set_laws self.a_recs
        → initialize_zone names Key rdatasets zones sign self readings now ≡ ok (some (self', rest))
        → IsContent self readings self'.soa_rec rest (reader self'.zone)
    unfolding initialize_zone
    initialize_zone-IsContent self' rest ns distinct e =
        let cleared = clear_zone names Key rdatasets zones (reader self.zone) in
        let (o, added, e') =
          >>=-eq-ok (add_records_to_zone names Key rdatasets zones self readings cleared) _ e in
        committed o self' rest e' (λ txn next left k.
          add_records_to_zone-IsContent self readings ns distinct cleared
            (get-clear_zone Key zones laws set_laws (reader self.zone)) txn next left
            (added ∙ ap ok k))
