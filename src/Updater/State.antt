-- ===== src/Updater/State.antt =====
-- The updater's state and its construction. Logging is left out.
pub mod Interval
use a_healthy_dns.Base.{
  Bool, false, Option, none, some, List, [], ◌∷◌, is_some, if◌then◌else◌, Result, ok, value_error,
  ◌>>=◌, ◌>>◌, raise_if,
}
use a_healthy_dns.Base.Int.{ℤ, pos, ◌+ℤ◌, ◌*ℤ◌, leb_ℤ, ltb_ℤ}
use a_healthy_dns.Base.Text.{Text}
use a_healthy_dns.Dns.Names.{Names}
use a_healthy_dns.Dns.Rdatasets.{Rdatasets, Rdataset}
use a_healthy_dns.Dns.Zones.{Zones}
use a_healthy_dns.Records.HealthyIp.{AHealthyIp}
use a_healthy_dns.Records.HealthyRecord.{AHealthyRecord}
use a_healthy_dns.Records.Soa.{SoaIterator, iter_soa_record, make_ns_record}
use a_healthy_dns.Records.ZoneOrigins.{ZoneOrigins}

pub data RefreshARecordsResult : Type 0 where
  no_changes changes aborted : RefreshARecordsResult

abbrev pub delta_per_record_sign : ℤ
delta_per_record_sign = pos 2

abbrev pub delta_per_record_management : ℤ
delta_per_record_management = pos 1

-- `sum(1 for ip in healthy_ips if ip.health_port is not None)`
probed_count : List AHealthyIp → ℤ
probed_count [] = pos 0
probed_count (x ∷ xs) = (if is_some x.health_port then pos 1 else pos 0) +ℤ probed_count xs

module _ (names : Names) (Key : Type 0) where
  open names use {Name}

  -- `DnsServerConfig` of dns_server_config_factory.py
  pub record DnsServerConfig : Type 0 where
    pub zone_origins : ZoneOrigins names
    pub primary_name_server : Text
    pub name_servers : List Text
    pub a_records : List (AHealthyRecord names)
    pub ext_private_key : Option Key

  loop_duration : ℤ → ℤ → List (AHealthyRecord names) → ℤ
  unfolding probed_count
  loop_duration connection_timeout delta_per_record [] = pos 0
  loop_duration connection_timeout delta_per_record (r ∷ rs) =
      probed_count r.healthy_ips *ℤ connection_timeout
      +ℤ delta_per_record
      +ℤ loop_duration connection_timeout delta_per_record rs

  pub calculate_max_interval : ℤ → ℤ → List (AHealthyRecord names) → Bool → ℤ
  unfolding loop_duration
  calculate_max_interval min_interval connection_timeout a_records do_sign =
      let delta_per_record : ℤ =
        delta_per_record_management +ℤ (if do_sign then delta_per_record_sign else pos 0) in
      let max_loop_duration = loop_duration connection_timeout delta_per_record a_records in
      if ltb_ℤ min_interval max_loop_duration then max_loop_duration else min_interval

  module _ (rdatasets : Rdatasets) (zones : Zones names rdatasets) where
    open rdatasets use {Rdata}
    open zones use {Zone}

    -- `RRSigAction`; its generator's arguments are the key and `max_interval`.
    pub record RrSigAction : Type 0 where
      pub resign : ℤ
      pub key : Key

    -- The fields of `DnsServerZoneUpdater`. The two `partial` functions are kept as the arguments
    -- that they hold, `max_interval` and `connection_timeout`.
    pub record Updater : Type 0 where
      pub ns_rec : Rdataset Rdata
      pub soa_rec : SoaIterator names rdatasets
      pub rrsig_action : Option RrSigAction
      pub a_recs : List (AHealthyRecord names)
      pub max_interval : ℤ
      pub connection_timeout : ℤ
      pub zone : Zone
      pub is_zone_recreated_at_least_once : Bool

    first_action : Option Key → Option RrSigAction
    first_action none = none
    first_action (some key) = some (record { resign = pos 0; key = key })

    -- `DnsServerZoneUpdater.__init__`; `empty_zone` is `dns.versioned.Zone(origin)`.
    unfoldable pub make_updater : (Name → Zone) → ℤ → ℤ → DnsServerConfig → Result Updater
    unfolding first_action
    make_updater empty_zone min_interval connection_timeout config =
        let max_interval =
          calculate_max_interval min_interval connection_timeout config.a_records
            (is_some config.ext_private_key) in
        do
          raise_if (leb_ℤ min_interval (pos 0)) value_error
          raise_if (leb_ℤ connection_timeout (pos 0)) value_error
          ns_rec ← make_ns_record names rdatasets max_interval config.name_servers
          ok (record {
            ns_rec = ns_rec;
            soa_rec =
                iter_soa_record names rdatasets max_interval config.zone_origins.primary
                  config.primary_name_server;
            rrsig_action = first_action config.ext_private_key;
            a_recs = config.a_records;
            max_interval = max_interval;
            connection_timeout = connection_timeout;
            zone = empty_zone config.zone_origins.primary;
            is_zone_recreated_at_least_once = false;
          })
