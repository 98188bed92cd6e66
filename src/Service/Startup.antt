-- ===== src/Service/Startup.antt =====
-- From the arguments to an updater that meets the conditions of a rebuild.

use a_healthy_dns.Base.{
  ◌≡◌, refl, sym, ap, subst, ◌∙◌, inl, inr, Bool, true, false, none, some, List, [], ◌∷◌, All,
  All-mem, All-of_mem, IsOrdered, arith, Bool-cases, Result, ok, raised, raise_if, value_error,
  ◌>>=◌, >>=-eq-ok, >>-eq-ok, is_some,
}
use a_healthy_dns.Base.Int.{ℤ, pos, leb_ℤ}
use a_healthy_dns.Base.Text.{Text}
use a_healthy_dns.Dns.Names.{Names, NamesLaws, same_owner}
use a_healthy_dns.Dns.Rdatasets.{Rdatasets, RdatasetsLaws, Rdataset, in_class, ns_type}
use a_healthy_dns.Dns.Zones.{Zones, ZonesLaws}
use a_healthy_dns.Unicode.{Unicode, AsciiLaws}
use a_healthy_dns.Tools.Ip.Octet.{IsAscii}
use a_healthy_dns.Tools.Subdomain.Hostname.{IsHostname}
use a_healthy_dns.Records.HealthyRecord.{AHealthyRecord, healthy_record_eq}
use a_healthy_dns.Records.HealthyRecord.Sets.{IsWellFormedRecord}
use a_healthy_dns.Records.Soa.{make_ns_record}
use a_healthy_dns.Records.Time.{calculate_ns_ttl}
use a_healthy_dns.Updater.State.{DnsServerConfig, Updater, make_updater, calculate_max_interval}
use a_healthy_dns.Updater.Rebuild.Committed.{AreDistinct}
use a_healthy_dns.Updater.Current.{IsSound}
use a_healthy_dns.Config.{Args, Loading, PrivateKeyPair, make_config}
use a_healthy_dns.Config.Addresses.{IsFresh}
use a_healthy_dns.Config.Records.{AreRecordsOf}
use a_healthy_dns.Config.Accepted.{make_config-IsValid}
use a_healthy_dns.Threaded.{is_alive, ThreadedUpdater, initialized, make_threaded_updater}

-- A host name that is read at an origin lies below it, and names below an origin are told apart by
-- what they are relative to it.
pub record ReadingLaws (names : Names) : Type 0 where
  pub below :
      (t : Text) (origin n : names.Name)
      → IsHostname t (names.to_host origin)
      → names.from_text t origin ≡ some n
      → names.is_subdomain n origin ≡ true
  pub relativize_injective :
      (a b origin : names.Name)
      → names.is_subdomain a origin ≡ true
      → names.is_subdomain b origin ≡ true
      → same_owner names origin a b ≡ true
      → names.name_eq a b ≡ true

module _ {names : Names} {rdatasets : Rdatasets} (Key : Type 0) (zones : Zones names rdatasets)
    (name_laws : NamesLaws names) (reading : ReadingLaws names) {origin : names.Name}
    (laws : ZonesLaws zones origin) (set_laws : RdatasetsLaws rdatasets) where
  open names use {Name, is_subdomain}

  abbrev IsBelow : AHealthyRecord names → Type 0
  IsBelow r = is_subdomain r.subdomain origin ≡ true

  differs :
      (a b : AHealthyRecord names)
      → IsBelow a
      → IsBelow b
      → healthy_record_eq names a b ≡ false
      → same_owner names origin a.subdomain b.subdomain ≡ false
  unfolding healthy_record_eq
  differs a b ha hb d = elim (Bool-cases (same_owner names origin a.subdomain b.subdomain)) [
    | inl e ↦ absurd (clash (reading.relativize_injective a.subdomain b.subdomain origin ha hb e) d)
    | inr e ↦ e
  ]
    where
      clash : {x : Bool} → x ≡ true → x ≡ false → ⊥
      clash h k = cc

  AreDistinct-below :
      (rs : List (AHealthyRecord names))
      → All IsBelow rs
      → IsOrdered (λ a b. healthy_record_eq names a b ≡ false) rs
      → AreDistinct Key zones name_laws laws set_laws rs
  AreDistinct-below [] h d = tt
  AreDistinct-below (r ∷ rs) h d = (
    All-of_mem _ rs (λ q m.
        differs r q h.0 (All-mem IsBelow rs h.1 m)
          (All-mem (λ b. healthy_record_eq names r b ≡ false) rs d.0 m)),
    AreDistinct-below rs h.1 d.1,
  )

  module _ (u : Unicode) (ascii : AsciiLaws u) where
    IsBelow-of :
        (entries : _) (rs : List (AHealthyRecord names))
        → AreRecordsOf names name_laws u ascii origin entries rs
        → All IsBelow rs
    IsBelow-of entries rs are = All-of_mem IsBelow rs (λ r m.
        let (key, value, k, made) = are.sound r m in
        reading.below key origin r.subdomain made.hostname made.named)

    -- The records of a configuration have different names, and are well-formed where their addresses
    -- are ASCII.
    records-AreDistinct :
        (entries : _) (rs : List (AHealthyRecord names))
        → AreRecordsOf names name_laws u ascii origin entries rs
        → AreDistinct Key zones name_laws laws set_laws rs
    records-AreDistinct entries rs are =
        AreDistinct-below rs (IsBelow-of entries rs are) are.distinct

module _ {names : Names} {rdatasets : Rdatasets} (Key : Type 0) (zones : Zones names rdatasets)
    (set_laws : RdatasetsLaws rdatasets) (empty_zone : names.Name → zones.Zone)
    (min_interval connection_timeout : ℤ) (config : DnsServerConfig names Key) where
  -- What the constructor takes over from the configuration.
  pub record TakesOver (self : Updater names Key rdatasets zones) : Type 0 where
    pub a_recs : config.a_records ≡ self.a_recs
    pub ns : self.ns_rec.rdtype ≡ ns_type

  make_updater-TakesOver :
      (self : Updater names Key rdatasets zones)
      → make_updater names Key rdatasets zones empty_zone min_interval connection_timeout config
        ≡ ok self
      → TakesOver self
  unfolding make_updater make_ns_record
  make_updater-TakesOver self e =
      let max_interval =
        calculate_max_interval names Key min_interval connection_timeout config.a_records
          (is_some config.ext_private_key) in
      let e1 = >>-eq-ok (raise_if (leb_ℤ min_interval (pos 0)) value_error) _ e in
      let e2 = >>-eq-ok (raise_if (leb_ℤ connection_timeout (pos 0)) value_error) _ e1 in
      let (ns_rec, made, e3) =
        >>=-eq-ok (make_ns_record names rdatasets max_interval config.name_servers) _ e2 in
      let type_eq =
        set_laws.from_text_type in_class ns_type (calculate_ns_ttl max_interval) config.name_servers
          ns_rec made in
      let same : ns_rec ≡ self.ns_rec = ground arith in
      record {
        a_recs = ground arith;
        ns = ap (λ (s : Rdataset rdatasets.Rdata). s.rdtype) (sym same) ∙ type_eq;
      }

  make_threaded_updater-TakesOver :
      (self : ThreadedUpdater names Key rdatasets zones)
      → make_threaded_updater names Key rdatasets zones empty_zone min_interval connection_timeout
          config
        ≡ ok self
      → (is_alive self.updater_thread ≡ false) × TakesOver self.updater
  unfolding make_threaded_updater initialized is_alive
  make_threaded_updater-TakesOver self e =
      go (make_updater names Key rdatasets zones empty_zone min_interval connection_timeout config)
        refl e
    where
      go :
          (r : Result (Updater names Key rdatasets zones))
          → make_updater names Key rdatasets zones empty_zone min_interval connection_timeout config
            ≡ r
          → (initialized names Key rdatasets zones r >>= λ updater. ok (record {
            updater = updater;
            min_interval = min_interval;
            connection_timeout = connection_timeout;
            stop_event = false;
            updater_thread = none;
          }))
            ≡ ok self
          → (is_alive self.updater_thread ≡ false) × TakesOver self.updater
      go (raised x) made k = cc
      go (ok updater) made k =
          let same : updater ≡ self.updater = ground arith in
          let thread : none ≡ self.updater_thread = ground arith in
          (rw (sym thread) refl, subst TakesOver same (make_updater-TakesOver updater made))

module _ {names : Names} {rdatasets : Rdatasets} (loading : Loading) (zones : Zones names rdatasets)
    (name_laws : NamesLaws names) (reading : ReadingLaws names) (set_laws : RdatasetsLaws rdatasets)
    (u : Unicode) (ascii : AsciiLaws u) where
  abbrev Pair : Type 0
  Pair = PrivateKeyPair names u loading

  -- No address has a character outside ASCII.
  abbrev pub AreAscii : List (AHealthyRecord names) → Type 0
  AreAscii = All (λ r. All (λ x. IsAscii x.ip) r.healthy_ips)

  -- An updater that is made of a configuration that `make_config` returned, for a zone with the
  -- configured origin, has an NS set and records of different names, which are well-formed if no
  -- address has a character outside ASCII; and its thread is not alive. So it meets the conditions of
  -- `start`.
  pub make_threaded_updater-IsSound :
      (args : Args) (config : DnsServerConfig names Pair)
      (laws : ZonesLaws zones config.zone_origins.primary) (empty_zone : names.Name → zones.Zone)
      (min_interval connection_timeout : ℤ) (self : ThreadedUpdater names Pair rdatasets zones)
      → make_config names u loading args ≡ ok (some config)
      → AreAscii config.a_records
      → make_threaded_updater names Pair rdatasets zones empty_zone min_interval connection_timeout
          config
        ≡ ok self
      → (is_alive self.updater_thread ≡ false) × IsSound zones name_laws laws set_laws self.updater
  make_threaded_updater-IsSound args config laws empty_zone min_interval connection_timeout self
        accepted only_ascii made =
      let valid = make_config-IsValid names name_laws u ascii loading args config accepted in
      let records = valid.records.2.records in
      let (idle, takes) =
        make_threaded_updater-TakesOver Pair zones set_laws empty_zone min_interval
          connection_timeout config self made in
      let distinct =
        records-AreDistinct Pair zones name_laws reading laws set_laws u ascii _ config.a_records
          records in
      let well_formed = All-of_mem (IsWellFormedRecord names) config.a_records (λ r m.
        let (key, value, k, of_entry) = records.sound r m in
        let plain = All-mem _ config.a_records only_ascii m in
        All-of_mem _ r.healthy_ips (λ x n.
          (All-mem IsFresh r.healthy_ips of_entry.fresh n).1 (All-mem _ r.healthy_ips plain n))) in
      (
        idle,
        record {
          ns = takes.ns;
          distinct = subst (AreDistinct Pair zones name_laws laws set_laws) takes.a_recs distinct;
          well_formed = subst (All (IsWellFormedRecord names)) takes.a_recs well_formed;
        },
      )
