-- ===== src/Config.antt =====
-- dns_server_config_factory.py. Logging is left out.
pub mod NameServers
pub mod Addresses
pub mod Entries
pub mod Records
pub mod Accepted
pub mod Returns
pub mod Sample
mod Tests
use mathlib.Core.Option
use a_healthy_dns.Base.{
  ℕ, Bool, true, false, not, Option, none, some, List, [], ◌∷◌, ◌++◌, if◌then◌else◌, Result, ok,
  raised, dns_error, ◌>>=◌, ◌>>?◌, caught,
}
use a_healthy_dns.Base.Set.{frozenset}
use a_healthy_dns.Base.Text.{Text, codes, text_eq}
use a_healthy_dns.Json.{Value, null, str, list, dict, text_of, items_of, entries_of, get_value}
use a_healthy_dns.Unicode.{Unicode}
use a_healthy_dns.Dns.Names.{Names}
use a_healthy_dns.Tools.Subdomain.{is_valid_subdomain, is_valid_fqdn}
use a_healthy_dns.Records.Dnssec.{ExtendedPrivateKey}
use a_healthy_dns.Records.HealthyIp.{AHealthyIp, make_healthy_ip}
use a_healthy_dns.Records.HealthyRecord.{AHealthyRecord, make_healthy_record, healthy_record_eq}
use a_healthy_dns.Records.ZoneOrigins.{ZoneOrigins, or_raise, make_zone_origins}
use a_healthy_dns.Updater.State.{DnsServerConfig}

-- The arguments that the file reads. Those from the command line are texts, and the path of the key
-- may be missing.
pub record Args : Type 0 where
  pub zone : Value
  pub alias_zones : Text
  pub resolutions : Text
  pub name_servers : Text
  pub priv_key_path : Option Text
  pub priv_key_alg : Text

-- What the file calls of Python and dnspython. `loads` is `json.loads`: `none` stands for
-- `JSONDecodeError`, and another exception leaves the call. `read_file` opens and reads a file, and
-- `none` stands for any exception, as it does in the three calls that make a key.
pub record Loading : Type 1 where
  pub Algorithm : Type 0
  pub PrivateKey : Type 0
  pub Dnskey : Type 0
  pub loads : Text → Result (Option Value)
  pub read_file : Text → Option (List ℕ)
  pub algorithm_from_text : Text → Option Algorithm
  pub from_pem : Algorithm → List ℕ → Option PrivateKey
  pub make_dnskey : PrivateKey → Algorithm → Option Dnskey

module _ (u : Unicode) where
  -- `[AHealthyIp(ip, health_port, False) for ip in ip_list]`
  unfoldable pub make_healthy_ips : Value → List Value → Result (List AHealthyIp)
  make_healthy_ips health_port [] = ok []
  make_healthy_ips health_port (ip ∷ ip_list) = do
    healthy_ip ← make_healthy_ip u ip health_port false
    rest ← make_healthy_ips health_port ip_list
    ok (healthy_ip ∷ rest)

module _ (names : Names) where
  open names use {Name, to_host, from_text}

  -- `_make_zone_origins`, behind `json.loads`
  unfoldable pub zone_origins_of : Value → Value → Result (Option (ZoneOrigins names))
  zone_origins_of hosted_zone (list vs) = caught (make_zone_origins names hosted_zone (items_of vs))
  zone_origins_of hosted_zone _ = ok none

  -- `ip_list`, where it is a list, with the port of the entry, where it is there and not null
  with_port : Option Value → Option Value → Option (List Value × Value)
  with_port (some (list ips)) none = none
  with_port (some (list ips)) (some null) = none
  with_port (some (list ips)) (some health_port) = some (items_of ips, health_port)
  with_port _ _ = none

  -- `ip_list` and `health_port`; `none` where the entry is refused
  unfoldable pub ip_list_of : Value → Option (List Value × Value)
  unfolding with_port
  ip_list_of (list ips) = some (items_of ips, null)
  ip_list_of (dict entries) =
      with_port (get_value (entries_of entries) (codes "ips"))
        (get_value (entries_of entries) (codes "health_port"))
  ip_list_of _ = none

  module _ (u : Unicode) where
    unfoldable pub record_of :
        Name → Option (List Value × Value) → Result (Option (AHealthyRecord names))
    record_of subdomain_name none = ok none
    record_of subdomain_name (some ([], health_port)) = ok none
    record_of subdomain_name (some (ip ∷ ip_list, health_port)) =
        caught (make_healthy_ips u health_port (ip ∷ ip_list)) >>? λ healthy_ips.
        ok (some (make_healthy_record names subdomain_name healthy_ips))

    -- The keys of a dictionary that `json.loads` returns are texts.
    unfoldable pub make_healthy_a_record :
        Name → Text → Value → Result (Option (AHealthyRecord names))
    unfolding or_raise
    make_healthy_a_record origin_name subdomain sub_config =
        let (success, error) = is_valid_subdomain (str subdomain) (to_host origin_name) in
        if not success then ok none else (do
          subdomain_name ← or_raise names (from_text subdomain origin_name)
          record_of subdomain_name (ip_list_of sub_config))

    -- The loop of `_make_a_records`
    unfoldable pub healthy_a_records :
        Name → List (Text × Value) → Result (Option (List (AHealthyRecord names)))
    healthy_a_records origin_name [] = ok (some [])
    healthy_a_records origin_name ((subdomain, sub_config) ∷ entries) =
        make_healthy_a_record origin_name subdomain sub_config >>? λ a_record.
        healthy_a_records origin_name entries >>? λ a_records. ok (some (a_record ∷ a_records))

    -- `_make_a_records`, behind `json.loads` and the test for a dictionary
    unfoldable pub a_records_of_entries :
        Name → List (Text × Value) → Result (Option (List (AHealthyRecord names)))
    a_records_of_entries origin_name [] = ok none
    a_records_of_entries origin_name (e ∷ entries) =
        healthy_a_records origin_name (e ∷ entries) >>? λ a_records.
        ok (some (frozenset (healthy_record_eq names) a_records))

    unfoldable pub a_records_of : Name → Value → Result (Option (List (AHealthyRecord names)))
    a_records_of origin_name (dict entries) = a_records_of_entries origin_name (entries_of entries)
    a_records_of origin_name _ = ok none

-- The loop of `_make_name_servers`
unfoldable pub abs_name_servers_of : List Value → Option (List Text)
abs_name_servers_of [] = some []
abs_name_servers_of (ns ∷ name_servers) =
    let rest = abs_name_servers_of name_servers in
    if not (is_valid_fqdn ns).0 then none else elim rest [
      | none ↦ none
      | some abs_name_servers ↦ some ((text_of ns ++ b'.' ∷ []) ∷ abs_name_servers)
    ]

first_and_set : Option (List Text) → Option (Text × List Text)
first_and_set none = none
first_and_set (some []) = none
first_and_set (some (ns ∷ abs_name_servers)) = some (ns, frozenset text_eq (ns ∷ abs_name_servers))

-- `_make_name_servers`, behind `json.loads`. An empty list has been refused before its first
-- element is taken.
unfoldable pub name_servers_of : Value → Option (Text × List Text)
unfolding first_and_set
name_servers_of (list vs) = first_and_set (abs_name_servers_of (items_of vs))
name_servers_of _ = none

module _ (names : Names) (u : Unicode) (loading : Loading) where
  open loading use {
    PrivateKey, Dnskey, loads, read_file, algorithm_from_text, from_pem, make_dnskey,
  }

  unfoldable pub make_config_zone_origins : Args → Result (Option (ZoneOrigins names))
  make_config_zone_origins args = loads args.alias_zones >>? zone_origins_of names args.zone

  unfoldable pub make_a_records : names.Name → Args → Result (Option (List (AHealthyRecord names)))
  make_a_records origin_name args = loads args.resolutions >>? a_records_of names u origin_name

  unfoldable pub make_name_servers : Args → Result (Option (Text × List Text))
  make_name_servers args =
      loads args.name_servers >>? λ name_servers. ok (name_servers_of name_servers)

  abbrev pub PrivateKeyPair : Type 0
  PrivateKeyPair = ExtendedPrivateKey PrivateKey Dnskey

  -- The calls under `try`
  key_of : Args → List ℕ → Option PrivateKeyPair
  key_of args priv_key_pem = Option.bind (algorithm_from_text args.priv_key_alg) (λ alg.
      Option.bind (from_pem alg priv_key_pem) (λ priv_key.
        Option.bind (make_dnskey priv_key alg)
          (λ dnskey. some (record { private_key = priv_key; dnskey = dnskey }))))

  -- `_load_dnssec_private_key`
  unfoldable pub load_dnssec_private_key : Text → Option (List ℕ)
  load_dnssec_private_key key_path = read_file key_path

  unfoldable pub make_private_key : Text → Args → Option PrivateKeyPair
  unfolding key_of load_dnssec_private_key
  make_private_key key_path args = elim (load_dnssec_private_key key_path) [
    | none ↦ none
    | some priv_key_pem ↦ key_of args priv_key_pem
  ]

  -- What `make_config` keeps of a key: `some none` is no key. An empty path counts as none.
  unfoldable pub ext_private_key_of : Option Text → Args → Option (Option PrivateKeyPair)
  ext_private_key_of none args = some none
  ext_private_key_of (some []) args = some none
  ext_private_key_of (some (c ∷ path)) args = elim (make_private_key (c ∷ path) args) [
    | none ↦ none
    | some key ↦ some (some key)
  ]

  unfoldable pub make_config : Args → Result (Option (DnsServerConfig names PrivateKeyPair))
  make_config args = make_config_zone_origins args >>? λ zone_origins.
      make_a_records zone_origins.primary args >>? λ a_records.
      make_name_servers args >>? λ servers.
      ok (ext_private_key_of args.priv_key_path args) >>? λ ext_private_key. ok (
        some (record {
          zone_origins = zone_origins;
          primary_name_server = servers.0;
          name_servers = servers.1;
          a_records = a_records;
          ext_private_key = ext_private_key;
        }))
