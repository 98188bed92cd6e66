-- ===== src/Records/HealthyRecord.antt =====
-- records/a_healthy_record.py and records/a_record.py.
pub mod Sets
mod Tests
use a_healthy_dns.Base.{
  ℕ, Bool, List, [], ◌∷◌, Option, none, some, map, select, if◌then◌else◌, Result, ok, ◌>>=◌,
}
use a_healthy_dns.Base.Int.{ℤ}
use a_healthy_dns.Base.Set.{frozenset, set_eq}
use a_healthy_dns.Base.Text.{Text}
use a_healthy_dns.Dns.Names.{Names}
use a_healthy_dns.Dns.Rdatasets.{Rdatasets, Rdataset, in_class, a_type}
use a_healthy_dns.Records.HealthyIp.{AHealthyIp, healthy_ip_eq}
use a_healthy_dns.Records.Time.{calculate_a_ttl}

module _ (names : Names) where
  open names use {Name, name_eq}

  pub record AHealthyRecord : Type 0 where
    pub subdomain : Name
    pub healthy_ips : List AHealthyIp

  -- `AHealthyRecord.__init__`
  unfoldable pub make_healthy_record : Name → List AHealthyIp → AHealthyRecord
  make_healthy_record subdomain healthy_ips = record {
    subdomain = subdomain;
    healthy_ips = frozenset healthy_ip_eq healthy_ips;
  }

  -- `AHealthyRecord.__eq__`: the addresses do not count.
  unfoldable pub healthy_record_eq : AHealthyRecord → AHealthyRecord → Bool
  healthy_record_eq self other = name_eq self.subdomain other.subdomain

  unfoldable pub updated_ips : AHealthyRecord → List AHealthyIp → AHealthyRecord
  unfolding make_healthy_record
  updated_ips self ips =
      if set_eq healthy_ip_eq (frozenset healthy_ip_eq ips) self.healthy_ips
      then self
      else make_healthy_record self.subdomain ips

  -- `[ip.ip for ip in healthy_record.healthy_ips if ip.is_healthy]`
  abbrev pub published_ips : AHealthyRecord → List Text
  published_ips record_ = map (λ x. x.ip) (select (λ x. x.is_healthy) record_.healthy_ips)

  module _ (rdatasets : Rdatasets) where
    unfoldable pub a_rdataset : ℤ → List Text → Result (Option (Rdataset rdatasets.Rdata))
    a_rdataset max_interval [] = ok none
    a_rdataset max_interval (ip ∷ ips) = do
      rdataset ← rdatasets.from_text in_class a_type (calculate_a_ttl max_interval) (ip ∷ ips)
      ok (some rdataset)

    unfoldable pub make_a_record : ℤ → AHealthyRecord → Result (Option (Rdataset rdatasets.Rdata))
    unfolding a_rdataset
    make_a_record max_interval healthy_record =
        a_rdataset max_interval (published_ips healthy_record)
