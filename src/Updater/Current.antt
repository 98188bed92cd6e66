-- ===== src/Updater/Current.antt =====
-- The zone is current: it publishes the healthy addresses of the records that the updater holds.
pub mod Renewed
use mathlib.Core.List.{Memᴰ}
use mathlib.Core.List.Memᴰ
use a_healthy_dns.Base.{
  ◌≡◌, ◌⊎◌, ◌↔◌, refl, sym, ap, subst, ◌∙◌, inl, inr, false, true, Option, none, some, List, [],
  ◌∷◌, All, All-mem, All-of_mem, All-map, arith, ok, ℕ, Result, ◌&&◌, &&_iff, >>=-eq-ok,
}
use a_healthy_dns.Base.Int.{ℤ}
use a_healthy_dns.Base.Set.{set_eq}
use a_healthy_dns.Base.Set.Laws.{set_eq_iff}
use a_healthy_dns.Dns.Names.{Names, NamesLaws, same_owner}
use a_healthy_dns.Dns.Rdatasets.{Rdatasets, RdatasetsLaws, Rdataset, a_type, ns_type, soa_type}
use a_healthy_dns.Dns.Zones.{Zones, ZonesLaws}
use a_healthy_dns.Records.Dnssec.{RrSigKey}
use a_healthy_dns.Records.HealthyIp.{AHealthyIp, healthy_ip_eq}
use a_healthy_dns.Records.HealthyRecord.{AHealthyRecord, make_a_record}
use a_healthy_dns.Records.HealthyRecord.Sets.{
  IsWellFormedRecord, Publishes, make_a_record-Publishes, mem-of_set_eq,
}
use a_healthy_dns.Records.Soa.{SoaIterator}
use a_healthy_dns.Updater.State.{Updater}
use a_healthy_dns.Updater.Rebuild.{
  initialize_zone, add_records_to_zone, clear_zone, sign_zone, sign_and_commit,
}
use a_healthy_dns.Updater.Rebuild.Committed.{AreDistinct, IsUnnamed}
use a_healthy_dns.Updater.Rebuild.Contents.{Keeps, IsContent, initialize_zone-IsContent}

module _ {names : Names} {rdatasets : Rdatasets} (set_laws : RdatasetsLaws rdatasets)
    (max_interval : ℤ) where
  -- What the zone has for a record: nothing where no address is healthy, and else the set of the
  -- healthy addresses.
  abbrev pub Holds : AHealthyRecord names → Option (Rdataset rdatasets.Rdata) → Type 0
  Holds r none = All (λ x. x.is_healthy ≡ false) r.healthy_ips
  Holds r (some s) = Publishes names rdatasets set_laws max_interval r s

  pub Holds-made :
      (r : AHealthyRecord names) (o : Option (Rdataset rdatasets.Rdata))
      → IsWellFormedRecord names r
      → make_a_record names rdatasets max_interval r ≡ ok o
      → Holds r o
  Holds-made r o w e = elim (make_a_record-Publishes names rdatasets set_laws max_interval r w) [
    | inl (made, unhealthy) ↦
        let both = sym made ∙ e in
        let same : none ≡ o = ground arith in subst (Holds r) same unhealthy
    | inr (s, made, p) ↦
        let both = sym made ∙ e in let same : some s ≡ o = ground arith in subst (Holds r) same p
  ]

  -- A record with an equal set of addresses is held as well.
  pub Holds-same :
      (r r' : AHealthyRecord names) (o : Option (Rdataset rdatasets.Rdata))
      → set_eq healthy_ip_eq r'.healthy_ips r.healthy_ips ≡ true
      → Holds r o
      → Holds r' o
  Holds-same r r' none e h =
      All-of_mem _ r'.healthy_ips
        (λ x m. All-mem _ r.healthy_ips h ((mem-of_set_eq r'.healthy_ips r.healthy_ips e x).0 m))
  Holds-same r r' (some s) e p = record {
    rdclass = p.rdclass;
    rdtype = p.rdtype;
    ttl = p.ttl;
    set = p.set;
    nonempty = p.nonempty;
    items = λ d. (
      λ m.
          let (x, k, h, i) = (p.items d).0 m in
          (x, (mem-of_set_eq r'.healthy_ips r.healthy_ips e x).1 k, h, i),
      λ (x, k, h, i). (p.items d).1 (x, (mem-of_set_eq r'.healthy_ips r.healthy_ips e x).0 k, h, i),
    );
  }

module _ {names : Names} {Key : Type 0} {rdatasets : Rdatasets} (zones : Zones names rdatasets)
    (name_laws : NamesLaws names) {origin : names.Name} (laws : ZonesLaws zones origin)
    (set_laws : RdatasetsLaws rdatasets) where
  open names use {Name, empty}
  open zones use {Txn, get, reader}

  -- What every updater has: an NS set, and well-formed records of different names.
  pub record IsSound (self : Updater names Key rdatasets zones) : Type 0 where
    pub ns : self.ns_rec.rdtype ≡ ns_type
    pub distinct : AreDistinct Key zones name_laws laws set_laws self.a_recs
    pub well_formed : All (IsWellFormedRecord names) self.a_recs

  -- The committed zone has the NS set and an SOA set at the apex, for each record what it has to
  -- hold, and no A set at any other name.
  pub record IsCurrent (self : Updater names Key rdatasets zones) : Type 0 where
    pub ns : get (reader self.zone) empty ns_type ≡ some self.ns_rec
    pub soa : Rdataset rdatasets.Rdata
    pub soa_set : get (reader self.zone) empty soa_type ≡ some soa
    pub records :
        All
          (λ r. Holds set_laws self.max_interval r (get (reader self.zone) r.subdomain a_type))
          self.a_recs
    pub others :
        (name : Name)
        → IsUnnamed Key zones name_laws laws set_laws name self.a_recs
        → get (reader self.zone) name a_type ≡ none

  module _ (sign : Txn → RrSigKey Key → Result Txn)
      (keeps : Keeps zones name_laws laws set_laws sign) (self : Updater names Key rdatasets zones)
      (readings : List ℕ) (now : ℤ) where
    -- What a rebuild leaves as it is.
    pub record HasSame (self' : Updater names Key rdatasets zones) : Type 0 where
      pub ns_rec : self.ns_rec ≡ self'.ns_rec
      pub a_recs : self.a_recs ≡ self'.a_recs
      pub max_interval : self.max_interval ≡ self'.max_interval

    of_commit :
        (o : Option (Txn × SoaIterator names rdatasets × List ℕ))
        (self' : Updater names Key rdatasets zones) (rest : List ℕ)
        → sign_and_commit names Key rdatasets zones sign self now o ≡ ok (some (self', rest))
        → HasSame self'
    unfolding sign_and_commit
    of_commit none self' rest e = cc
    of_commit (some (txn, soa_rec, left)) self' rest e =
        let (signed, made, same) =
          >>=-eq-ok (sign_zone names Key rdatasets zones sign self now txn) _ e in
        record { ns_rec = ground arith; a_recs = ground arith; max_interval = ground arith }

    initialize_zone-HasSame :
        (self' : Updater names Key rdatasets zones) (rest : List ℕ)
        → initialize_zone names Key rdatasets zones sign self readings now ≡ ok (some (self', rest))
        → HasSame self'
    unfolding initialize_zone
    initialize_zone-HasSame self' rest e =
        let cleared = clear_zone names Key rdatasets zones (reader self.zone) in
        let (o, added, e') =
          >>=-eq-ok (add_records_to_zone names Key rdatasets zones self readings cleared) _ e in
        of_commit o self' rest e'

    -- A rebuild makes the zone current.
    pub initialize_zone-IsCurrent :
        (self' : Updater names Key rdatasets zones) (rest : List ℕ)
        → IsSound self
        → initialize_zone names Key rdatasets zones sign self readings now ≡ ok (some (self', rest))
        → IsSound self' × IsCurrent self'
    initialize_zone-IsCurrent self' rest sound e =
        let same = initialize_zone-HasSame self' rest e in
        let c =
          initialize_zone-IsContent zones name_laws laws set_laws sign keeps self readings now self'
            rest sound.ns sound.distinct e in
        let held =
          All-of_mem
            (λ r. Holds set_laws self.max_interval r (get (reader self'.zone) r.subdomain a_type))
            self.a_recs
            (λ r m.
              Holds-made set_laws self.max_interval r (get (reader self'.zone) r.subdomain a_type)
                (All-mem (IsWellFormedRecord names) self.a_recs sound.well_formed m)
                (All-mem _ self.a_recs c.records m)) in
        (
          record {
            ns = ap (λ (s : Rdataset rdatasets.Rdata). s.rdtype) (sym same.ns_rec) ∙ sound.ns;
            distinct =
                subst (AreDistinct Key zones name_laws laws set_laws) same.a_recs sound.distinct;
            well_formed = subst (All (IsWellFormedRecord names)) same.a_recs sound.well_formed;
          },
          record {
            ns = c.ns ∙ ap some same.ns_rec;
            soa = c.soa;
            soa_set = c.soa_set;
            records =
                subst
                  (λ rs.
                    All
                      (λ r.
                        Holds set_laws self'.max_interval r
                          (get (reader self'.zone) r.subdomain a_type))
                      rs)
                  same.a_recs
                  (subst
                    (λ i.
                      All (λ r. Holds set_laws i r (get (reader self'.zone) r.subdomain a_type))
                        self.a_recs)
                    same.max_interval held);
            others = λ name h.
                c.others name
                  (subst (IsUnnamed Key zones name_laws laws set_laws name) (sym same.a_recs) h);
          },
        )
