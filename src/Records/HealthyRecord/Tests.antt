-- ===== src/Records/HealthyRecord/Tests.antt =====
-- A record with a healthy and an unhealthy address.
use a_healthy_dns.Base.{◌≡◌, ◌⊎◌, refl, true, false, none, some, [], ◌∷◌, All, arith, ok}
use a_healthy_dns.Base.Int.{pos}
use a_healthy_dns.Base.Text.{Text, codes, join}
use a_healthy_dns.Dns.Names.Sample.{sample_names}
use a_healthy_dns.Dns.Rdatasets.{Rdataset}
use a_healthy_dns.Dns.Rdatasets.Sample.{sample_rdatasets, sample_rdatasets-RdatasetsLaws}
use a_healthy_dns.Tools.Ip.Octet.{show_octet}
use a_healthy_dns.Tools.Ip.Address.{IsCanonical, dotted}
use a_healthy_dns.Records.HealthyIp.{AHealthyIp}
use a_healthy_dns.Records.HealthyRecord.{AHealthyRecord, make_a_record}
use a_healthy_dns.Records.HealthyRecord.Sets.{
  IsWellFormedRecord, Publishes, make_a_record-Publishes,
}

abbrev up : AHealthyIp
up = record { ip = codes "10.0.0.1"; health_port = none; is_healthy = true }

abbrev down : AHealthyIp
down = record { ip = codes "10.0.0.2"; health_port = some (pos 80); is_healthy = false }

abbrev www : AHealthyRecord sample_names
www = record {
  subdomain = record { labels = codes "www" ∷ []; absolute = false };
  healthy_ips = up ∷ down ∷ [];
}

up-IsCanonical : IsCanonical (codes "10.0.0.1")
unfolding dotted join show_octet
up-IsCanonical = record {
  a = 10;
  b = 0;
  c = 0;
  d = 1;
  a_bound = omega arith;
  b_bound = omega arith;
  c_bound = omega arith;
  d_bound = omega arith;
  spells = refl;
}

down-IsCanonical : IsCanonical (codes "10.0.0.2")
unfolding dotted join show_octet
down-IsCanonical = record {
  a = 10;
  b = 0;
  c = 0;
  d = 2;
  a_bound = omega arith;
  b_bound = omega arith;
  c_bound = omega arith;
  d_bound = omega arith;
  spells = refl;
}

www-IsWellFormedRecord : IsWellFormedRecord sample_names www
www-IsWellFormedRecord = (
  record { canonical = up-IsCanonical; port = tt },
  (record { canonical = down-IsCanonical; port = (ground arith, ground arith) }, tt),
)

make_a_record-Publishes_example :
    ((make_a_record sample_names sample_rdatasets (pos 30) www ≡ ok none)
      × All (λ x. x.is_healthy ≡ false) www.healthy_ips)
    ⊎ ((s : Rdataset Text) × (make_a_record sample_names sample_rdatasets (pos 30) www
          ≡ ok (some s))
        × Publishes sample_names sample_rdatasets sample_rdatasets-RdatasetsLaws (pos 30) www s)
make_a_record-Publishes_example =
    make_a_record-Publishes sample_names sample_rdatasets sample_rdatasets-RdatasetsLaws (pos 30)
      www www-IsWellFormedRecord
