-- ===== src/Updater/Current/Renewed.antt =====
-- An update keeps the zone current.
use a_healthy_dns.Base.{
  ℕ, ◌≡◌, sym, ap, subst, ◌∙◌, inl, inr, true, false, Option, some, List, [], ◌∷◌, All, arith,
  Result, ok, &&_iff, Bool-cases,
}
use a_healthy_dns.Base.Int.{ℤ}
use a_healthy_dns.Base.Set.{set_eq}
use a_healthy_dns.Dns.Names.{Names, NamesLaws, same_owner}
use a_healthy_dns.Dns.Rdatasets.{Rdatasets, RdatasetsLaws, a_type}
use a_healthy_dns.Dns.Zones.{Zones, ZonesLaws}
use a_healthy_dns.Unicode.{Unicode, AsciiLaws}
use a_healthy_dns.Records.Dnssec.{RrSigKey}
use a_healthy_dns.Records.HealthyIp.{healthy_ip_eq}
use a_healthy_dns.Records.HealthyRecord.{AHealthyRecord}
use a_healthy_dns.Records.HealthyRecord.Sets.{IsWellFormedRecord}
use a_healthy_dns.Updater.State.{Updater}
use a_healthy_dns.Updater.Refresh.{Environment}
use a_healthy_dns.Updater.Refresh.Rounds.{AreRefreshed, same_ips}
use a_healthy_dns.Updater.Rebuild.{update}
use a_healthy_dns.Updater.Rebuild.Committed.{AreDistinct, IsUnnamed}
use a_healthy_dns.Updater.Rebuild.Contents.{Keeps}
use a_healthy_dns.Updater.Rebuild.Triggers.{IsNeeded, update_lem}
use a_healthy_dns.Updater.Current.{Holds, Holds-same, IsSound, IsCurrent, initialize_zone-IsCurrent}

module _ {names : Names} (Key : Type 0) {rdatasets : Rdatasets} (zones : Zones names rdatasets)
    (name_laws : NamesLaws names) {origin : names.Name} (laws : ZonesLaws zones origin)
    (set_laws : RdatasetsLaws rdatasets) (u : Unicode) (ascii : AsciiLaws u) (env : Environment)
    (connection_timeout : ℤ) where
  open names use {Name}
  open zones use {Txn, get, reader}

  abbrev Rs : Type 0
  Rs = List (AHealthyRecord names)

  abbrev Refreshed : Rs → Rs → Type 0
  Refreshed = AreRefreshed u ascii env connection_timeout names

  abbrev Unnamed : Name → Rs → Type 0
  Unnamed = IsUnnamed Key zones name_laws laws set_laws

  -- A checked record has its old name.
  names_stay : (name : Name) (rs rs' : Rs) → Refreshed rs rs' → Unnamed name rs' → Unnamed name rs
  names_stay name [] [] c h = tt
  names_stay name [] (r' ∷ rs') c h = absurd c
  names_stay name (r ∷ rs) [] c h = absurd c
  names_stay name (r ∷ rs) (r' ∷ rs') c h = (
    ap (λ n. same_owner names origin n name) (sym c.0.subdomain) ∙ h.0,
    names_stay name rs rs' c.1 h.1,
  )

  differs_stay :
      (n n' : Name) (rs rs' : Rs)
      → n' ≡ n
      → Refreshed rs rs'
      → All (λ q. same_owner names origin n q.subdomain ≡ false) rs
      → All (λ q. same_owner names origin n' q.subdomain ≡ false) rs'
  differs_stay n n' [] [] e c h = tt
  differs_stay n n' [] (r' ∷ rs') e c h = absurd c
  differs_stay n n' (r ∷ rs) [] e c h = absurd c
  differs_stay n n' (r ∷ rs) (r' ∷ rs') e c h =
      (rw (e, c.0.subdomain) h.0, differs_stay n n' rs rs' e c.1 h.1)

  pub distinct_stay :
      (rs rs' : Rs)
      → Refreshed rs rs'
      → AreDistinct Key zones name_laws laws set_laws rs
      → AreDistinct Key zones name_laws laws set_laws rs'
  distinct_stay [] [] c h = tt
  distinct_stay [] (r' ∷ rs') c h = absurd c
  distinct_stay (r ∷ rs) [] c h = absurd c
  distinct_stay (r ∷ rs) (r' ∷ rs') c h = (
    differs_stay r.subdomain r'.subdomain rs rs' c.0.subdomain c.1 h.0,
    distinct_stay rs rs' c.1 h.1,
  )

  pub well_formed_stay : (rs rs' : Rs) → Refreshed rs rs' → All (IsWellFormedRecord names) rs'
  well_formed_stay [] [] c = tt
  well_formed_stay [] (r' ∷ rs') c = absurd c
  well_formed_stay (r ∷ rs) [] c = absurd c
  well_formed_stay (r ∷ rs) (r' ∷ rs') c = (c.0.well_formed, well_formed_stay rs rs' c.1)

  abbrev Held : ℤ → Txn → Rs → Type 0
  Held max_interval txn = All (λ r. Holds set_laws max_interval r (get txn r.subdomain a_type))

  -- What is held for the records is held for checked records with the same sets of addresses.
  pub Held-kept :
      (max_interval : ℤ) (txn : Txn) (rs rs' : Rs)
      → Refreshed rs rs'
      → same_ips names rs rs' ≡ true
      → Held max_interval txn rs
      → Held max_interval txn rs'
  Held-kept max_interval txn [] [] c e h = tt
  Held-kept max_interval txn [] (r' ∷ rs') c e h = absurd c
  Held-kept max_interval txn (r ∷ rs) [] c e h = absurd c
  Held-kept max_interval txn (r ∷ rs) (r' ∷ rs') c e h =
      let k =
        (&&_iff (set_eq healthy_ip_eq r'.healthy_ips r.healthy_ips) (same_ips names rs rs')).0 e in
      (
        subst (λ n. Holds set_laws max_interval r' (get txn n a_type)) (sym c.0.subdomain)
            (Holds-same set_laws max_interval r r' (get txn r.subdomain a_type) k.0 h.0),
        Held-kept max_interval txn rs rs' c.1 k.1 h.1,
      )

module _ {names : Names} {Key : Type 0} {rdatasets : Rdatasets} (zones : Zones names rdatasets)
    (name_laws : NamesLaws names) {origin : names.Name} (laws : ZonesLaws zones origin)
    (set_laws : RdatasetsLaws rdatasets) (sign : zones.Txn → RrSigKey Key → Result zones.Txn)
    (keeps : Keeps zones name_laws laws set_laws sign) (u : Unicode) (ascii : AsciiLaws u)
    (env : Environment) (n : ℕ) where
  abbrev Sound : Updater names Key rdatasets zones → Type 0
  Sound = IsSound zones name_laws laws set_laws

  abbrev Current : Updater names Key rdatasets zones → Type 0
  Current = IsCurrent zones name_laws laws set_laws

  abbrev Returned :
      Updater names Key rdatasets zones
      → List ℕ
      → Result (Option (Updater names Key rdatasets zones × List ℕ))
  Returned self rest = ok (some (self, rest))

  module _ (self : Updater names Key rdatasets zones) (rs' : List (AHealthyRecord names))
      (c : AreRefreshed u ascii env self.connection_timeout names self.a_recs rs') where
    with_checked : Sound self → Sound (record self { a_recs = rs' })
    with_checked s = record {
      ns = s.ns;
      distinct =
          distinct_stay Key zones name_laws laws set_laws u ascii env self.connection_timeout
            self.a_recs rs' c s.distinct;
      well_formed =
          well_formed_stay Key zones name_laws laws set_laws u ascii env self.connection_timeout
            self.a_recs rs' c;
    }

    Current-kept :
        same_ips names self.a_recs rs' ≡ true
        → Current self
        → Current (record self { a_recs = rs' })
    Current-kept e k = record {
      ns = k.ns;
      soa = k.soa;
      soa_set = k.soa_set;
      records =
          Held-kept Key zones name_laws laws set_laws u ascii env self.connection_timeout
            self.max_interval (zones.reader self.zone) self.a_recs rs' c e k.records;
      others = λ name h. k.others name (
          names_stay Key zones name_laws laws set_laws u ascii env self.connection_timeout name
            self.a_recs rs' c h);
    }

  -- For an updater with an NS set and well-formed records of different names, and a signer that keeps
  -- the A, NS and SOA sets: if the zone is current, so it is after an update that returns. It has the
  -- NS set and an SOA set at the apex, for each record the set of just the healthy addresses that the
  -- last round of checks left, or no A set where there is none, and no A set elsewhere.
  pub update-IsCurrent :
      (self self' : Updater names Key rdatasets zones) (readings rest : List ℕ) (now : ℤ)
      → IsSound zones name_laws laws set_laws self
      → IsCurrent zones name_laws laws set_laws self
      → update names Key rdatasets zones sign u env n self readings now ≡ ok (some (self', rest))
      → IsSound zones name_laws laws set_laws self' × IsCurrent zones name_laws laws set_laws self'
  update-IsCurrent self self' readings rest now sound current e =
      elim (update_lem zones sign u ascii env n self readings now sound.well_formed) [
        | inl (m, _, stopped, same) ↦ moved self (sound, current) (sym same ∙ e)
        | inr (rs', c, inl (needed, rebuilt)) ↦
            initialize_zone-IsCurrent zones name_laws laws set_laws sign keeps
              (record self { a_recs = rs' }) readings now self' rest (with_checked self rs' c sound)
              (sym rebuilt ∙ e)
        | inr (rs', c, inr (spared, same)) ↦
            moved (record self { a_recs = rs' })
              (
                with_checked self rs' c sound,
                Current-kept self rs' c (unchanged rs' spared) current,
              )
              (sym same ∙ e)
      ]
    where
      moved :
          (t : Updater names Key rdatasets zones)
          → Sound t × Current t
          → Returned t readings ≡ Returned self' rest
          → Sound self' × Current self'
      moved t h k = let same : t ≡ self' = ground arith in subst (λ v. Sound v × Current v) same h

      unchanged :
          (rs' : List (AHealthyRecord names))
          → ¬ IsNeeded zones sign self rs' now
          → same_ips names self.a_recs rs' ≡ true
      unchanged rs' h = elim (Bool-cases (same_ips names self.a_recs rs')) [
        | inl same ↦ same
        | inr differ ↦ absurd (h (inl differ))
      ]
