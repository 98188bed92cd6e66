-- ===== src/Config/Sample.antt =====
-- The arguments of a server for one zone, and the configuration that they give.
use a_healthy_dns.Base.{◌≡◌, refl, true, false, none, some, [], ◌∷◌, ok, if◌then◌else◌}
use a_healthy_dns.Base.Set.{frozenset}
use a_healthy_dns.Base.Sorting.{sorted}
use a_healthy_dns.Base.Text.{Text, codes, text_eq, split, join, lstrip}
use a_healthy_dns.Json.{Value, int, str, list, dict, nil, cons, end, entry, get_value}
use a_healthy_dns.Base.Int.{pos}
use a_healthy_dns.Unicode.{ascii_unicode, isdigit, int_of}
use a_healthy_dns.Dns.Names.Sample.{sample_names}
use a_healthy_dns.Dns.Zones.Sample.{sample_origin}
use a_healthy_dns.Tools.Ip.{is_valid_ip, is_valid_port, valid_parts, normalize_octet, normalize_ip}
use a_healthy_dns.Tools.Subdomain.{is_valid_subdomain, is_valid_fqdn, valid_labels}
use a_healthy_dns.Records.HealthyIp.{make_healthy_ip}
use a_healthy_dns.Records.HealthyRecord.{make_healthy_record, healthy_record_eq}
use a_healthy_dns.Records.ZoneOrigins.{or_raise, to_abs_name, to_abs_names, make_zone_origins}
use a_healthy_dns.Updater.State.{DnsServerConfig}
use a_healthy_dns.Config.{
  Args, Loading, PrivateKeyPair, zone_origins_of, ip_list_of, make_healthy_ips, record_of,
  make_healthy_a_record, healthy_a_records, a_records_of_entries, a_records_of, abs_name_servers_of,
  name_servers_of, make_config_zone_origins, make_a_records, make_name_servers, ext_private_key_of,
  make_config,
}

abbrev resolutions_value : Value
resolutions_value = dict (
    entry (codes "www")
      (dict (
        entry (codes "ips") (list (cons (str (codes "10.0.0.01")) nil))
          (entry (codes "health_port") (int (pos 80)) end)))
      end)

-- A loader that knows three texts, and no keys.
abbrev pub sample_loading : Loading
sample_loading = record {
  Algorithm = Text;
  PrivateKey = Text;
  Dnskey = Text;
  loads = λ t.
      if text_eq t (codes "[]")
      then ok (some (list nil))
      else if text_eq t (codes "resolutions")
      then ok (some resolutions_value)
      else if text_eq t (codes "servers")
      then ok (some (list (cons (str (codes "ns1.example.net")) nil)))
      else ok none;
  read_file = λ path. none;
  algorithm_from_text = λ t. some t;
  from_pem = λ alg pem. some pem;
  make_dnskey = λ key alg. some alg;
}

abbrev pub sample_args : Args
sample_args = record {
  zone = str (codes "example.com");
  alias_zones = codes "[]";
  resolutions = codes "resolutions";
  name_servers = codes "servers";
  priv_key_path = none;
  priv_key_alg = codes "RSASHA256";
}

abbrev pub sample_config :
    DnsServerConfig sample_names (PrivateKeyPair sample_names ascii_unicode sample_loading)
sample_config = record {
  zone_origins = record { primary = sample_origin; origins = sample_origin ∷ [] };
  primary_name_server = codes "ns1.example.net.";
  name_servers = codes "ns1.example.net." ∷ [];
  a_records =
      record {
        subdomain = record {
          labels = codes "www" ∷ codes "example" ∷ codes "com" ∷ [];
          absolute = true;
        };
        healthy_ips =
            record { ip = codes "10.0.0.1"; health_port = some (pos 80); is_healthy = false } ∷ [];
      }
      ∷ [];
  ext_private_key = none;
}

pub sample_accepted :
    make_config sample_names ascii_unicode sample_loading sample_args ≡ ok (some sample_config)
unfolding make_config make_config_zone_origins make_a_records make_name_servers ext_private_key_of
    zone_origins_of ip_list_of make_healthy_ips record_of make_healthy_a_record healthy_a_records
    a_records_of_entries a_records_of abs_name_servers_of name_servers_of get_value make_healthy_ip
    make_healthy_record healthy_record_eq or_raise to_abs_name to_abs_names make_zone_origins
    is_valid_ip is_valid_port valid_parts normalize_octet normalize_ip is_valid_subdomain
    is_valid_fqdn valid_labels isdigit int_of split join lstrip frozenset sorted
sample_accepted = refl
