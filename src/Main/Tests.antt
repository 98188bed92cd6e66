-- ===== src/Main/Tests.antt =====
-- A server that is started, serves and is stopped.
use a_healthy_dns.Base.{◌≡◌, refl, some, [], ◌∷◌, ok}
use a_healthy_dns.Base.Int.{pos}
use a_healthy_dns.Base.Set.{frozenset}
use a_healthy_dns.Base.Sorting.{sorted}
use a_healthy_dns.Base.Text.{split, join, lstrip}
use a_healthy_dns.Json.{get_value}
use a_healthy_dns.Unicode.{ascii_unicode, isdigit, int_of}
use a_healthy_dns.Dns.Names.Sample.{sample_names}
use a_healthy_dns.Dns.Rdatasets.Sample.{sample_rdatasets}
use a_healthy_dns.Dns.Zones.Sample.{sample_zones}
use a_healthy_dns.Tools.Clock.{uint32_current_time}
use a_healthy_dns.Tools.Ip.{is_valid_ip, is_valid_port, valid_parts, normalize_octet, normalize_ip}
use a_healthy_dns.Tools.Subdomain.{is_valid_subdomain, is_valid_fqdn, valid_labels}
use a_healthy_dns.Records.HealthyIp.{make_healthy_ip}
use a_healthy_dns.Records.HealthyRecord.{
  make_healthy_record, healthy_record_eq, make_a_record, a_rdataset,
}
use a_healthy_dns.Records.Soa.{iter_soa_record, make_ns_record, next_serial, next_soa_record}
use a_healthy_dns.Records.ZoneOrigins.{or_raise, to_abs_name, to_abs_names, make_zone_origins}
use a_healthy_dns.Updater.State.{make_updater}
use a_healthy_dns.Updater.Rebuild.{
  initialize_zone, add_records_to_zone, add_soa_and_a_records, add_a_records, add_a_record_to_zone,
  add_if, clear_zone, delete_all, sign_and_commit, sign_zone, sign_with,
}
use a_healthy_dns.Config.{
  zone_origins_of, ip_list_of, make_healthy_ips, record_of, make_healthy_a_record,
  healthy_a_records, a_records_of_entries, a_records_of, abs_name_servers_of, name_servers_of,
  make_config_zone_origins, make_a_records, make_name_servers, ext_private_key_of, make_config,
}
use a_healthy_dns.Config.Sample.{sample_loading, sample_args}
use a_healthy_dns.Threaded.{initialized, is_alive, launched, make_threaded_updater, start, stop}
use a_healthy_dns.Main.{MainArgs, Ending, Calls, main}
use a_healthy_dns.Main.Stops.{IsEndingOf, main-IsEndingOf}

-- A server whose `serve_forever` returns, and whose thread does not end in time.
abbrev calls : Calls sample_names ascii_unicode sample_loading sample_rdatasets sample_zones
calls = record {
  empty_zone = λ origin. [];
  sign = λ txn key. ok txn;
  serve = λ port zone zone_origins self. (ok tt, self);
  join = λ timeout self. self;
}

abbrev args : MainArgs
args = record {
  config_args = sample_args;
  min_interval = pos 30;
  connection_timeout = pos 2;
  port = pos 53053;
}

served :
    (ending : Ending sample_names ascii_unicode sample_loading sample_rdatasets sample_zones)
    × (main sample_names ascii_unicode sample_loading sample_rdatasets sample_zones calls args
          (7 ∷ [])
          (pos 0)
        ≡ some ending)
unfolding main make_threaded_updater initialized make_updater make_ns_record iter_soa_record start
    launched stop is_alive initialize_zone add_records_to_zone add_soa_and_a_records add_a_records
    add_a_record_to_zone add_if clear_zone delete_all sign_and_commit sign_zone sign_with
    next_soa_record next_serial uint32_current_time make_a_record a_rdataset frozenset make_config
    make_config_zone_origins make_a_records make_name_servers ext_private_key_of zone_origins_of
    ip_list_of make_healthy_ips record_of make_healthy_a_record healthy_a_records
    a_records_of_entries a_records_of abs_name_servers_of name_servers_of get_value make_healthy_ip
    make_healthy_record healthy_record_eq or_raise to_abs_name to_abs_names make_zone_origins
    is_valid_ip is_valid_port valid_parts normalize_octet normalize_ip is_valid_subdomain
    is_valid_fqdn valid_labels isdigit int_of split join lstrip sorted
served = (_, refl)

main-IsEndingOf_example :
    IsEndingOf sample_names ascii_unicode sample_loading sample_rdatasets sample_zones calls args
      (7 ∷ [])
      (pos 0)
      (make_config sample_names ascii_unicode sample_loading sample_args)
      served.0
main-IsEndingOf_example =
    main-IsEndingOf sample_names ascii_unicode sample_loading sample_rdatasets sample_zones calls
      args (7 ∷ []) (pos 0) served.0 (λ timeout self h. h) served.1
