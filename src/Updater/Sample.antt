-- ===== src/Updater/Sample.antt =====
-- An updater with one record, over a zone with an old name in it.
use a_healthy_dns.Base.{◌≡◌, refl, true, false, none, some, List, [], ◌∷◌, All, Result, ok, arith}
use a_healthy_dns.Base.Int.{pos}
use a_healthy_dns.Base.Text.{Text, codes, join}
use a_healthy_dns.Unicode.{ascii_unicode}
use a_healthy_dns.Dns.Names.Sample.{sample_names, sample_names-NamesLaws}
use a_healthy_dns.Dns.Rdatasets.Sample.{sample_rdatasets, sample_rdatasets-RdatasetsLaws}
use a_healthy_dns.Dns.Zones.Sample.{Entry, sample_zones, sample_zones-ZonesLaws}
use a_healthy_dns.Tools.Clock.{connected}
use a_healthy_dns.Tools.Ip.Octet.{show_octet}
use a_healthy_dns.Tools.Ip.Address.{IsCanonical, dotted}
use a_healthy_dns.Records.Dnssec.{RrSigKey}
use a_healthy_dns.Records.HealthyRecord.{AHealthyRecord}
use a_healthy_dns.Records.HealthyRecord.Sets.{IsWellFormedRecord}
use a_healthy_dns.Updater.State.{Updater}
use a_healthy_dns.Updater.Refresh.{
  Environment, refresh_ips, refresh_a_record, refresh_records, refresh_a_recs,
}
use a_healthy_dns.Updater.Current.{IsSound}
use a_healthy_dns.Updater.Rebuild.{update, after_refresh}
use a_healthy_dns.Updater.Rebuild.Contents.{Keeps}

abbrev pub www : AHealthyRecord sample_names
www = record {
  subdomain = record { labels = codes "www" ∷ []; absolute = false };
  healthy_ips =
      record { ip = codes "10.0.0.1"; health_port = some (pos 80); is_healthy = true } ∷ [];
}

pub www-IsCanonical : IsCanonical (codes "10.0.0.1")
unfolding dotted join show_octet
www-IsCanonical = record {
  a = 10;
  b = 0;
  c = 0;
  d = 1;
  a_bound = omega arith;
  b_bound = omega arith;
  c_bound = omega arith;
  d_bound = omega arith;
  spells = refl;
}

pub records-AllWellFormed : All (IsWellFormedRecord sample_names) (www ∷ [])
records-AllWellFormed =
    ((record { canonical = www-IsCanonical; port = (ground arith, ground arith) }, tt), tt)

abbrev pub reachable : Environment
reachable = record { should_abort = λ n. false; connect = λ n ip port timeout. connected }

abbrev pub State : Type 0
State = Updater sample_names Text sample_rdatasets sample_zones

-- An updater that has not built its zone, over a zone with an old name in it.
abbrev pub fresh : State
fresh = record {
  ns_rec = record { rdclass = 1; rdtype = 2; ttl = pos 1800; items = codes "ns1.example.com" ∷ [] };
  soa_rec = record {
    max_interval = pos 30;
    origin_name = record { labels = codes "example" ∷ codes "com" ∷ []; absolute = true };
    primary_ns = codes "ns1.example.com";
    last_serial = 0;
  };
  rrsig_action = none;
  a_recs = www ∷ [];
  max_interval = pos 30;
  connection_timeout = pos 2;
  zone =
      record {
        owner = record { labels = codes "old" ∷ []; absolute = false };
        rdataset = record { rdclass = 1; rdtype = 1; ttl = pos 60; items = codes "10.0.0.9" ∷ [] };
      }
      ∷ [];
  is_zone_recreated_at_least_once = false;
}

abbrev pub unsigned : List Entry → RrSigKey Text → Result (List Entry)
unsigned txn key = ok txn

-- A round that is told to abort at once.
abbrev pub stopped : Environment
stopped = record { should_abort = λ n. true; connect = λ n ip port timeout. connected }

pub stopped-update :
    update sample_names Text sample_rdatasets sample_zones unsigned ascii_unicode stopped 0 fresh
      (7 ∷ [])
      (pos 0)
    ≡ ok (some (fresh, 7 ∷ []))
unfolding update after_refresh refresh_a_recs refresh_records refresh_a_record refresh_ips
stopped-update = ground arith

pub unsigned-Keeps :
    Keeps sample_zones sample_names-NamesLaws sample_zones-ZonesLaws sample_rdatasets-RdatasetsLaws
      unsigned
unsigned-Keeps txn after key e name rdtype p = ground arith

pub fresh-IsSound :
    IsSound sample_zones sample_names-NamesLaws sample_zones-ZonesLaws
      sample_rdatasets-RdatasetsLaws fresh
fresh-IsSound = record { ns = refl; distinct = (tt, tt); well_formed = records-AllWellFormed }
