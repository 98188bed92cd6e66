-- ===== src/Updater/Tests.antt =====
-- A round of checks and a rebuilt zone at one record.
use a_healthy_dns.Base.{
  ℕ, ◌≤◌, ◌≡◌, ◌⊎◌, refl, true, some, List, [], ◌∷◌, Option, Result, ok, arith,
}
use a_healthy_dns.Base.Int.{pos}
use a_healthy_dns.Base.Set.{frozenset}
use a_healthy_dns.Base.Text.{Text}
use a_healthy_dns.Unicode.{ascii_unicode, ascii_unicode-AsciiLaws}
use a_healthy_dns.Dns.Names.Sample.{sample_names, sample_names-NamesLaws}
use a_healthy_dns.Dns.Rdatasets.Sample.{sample_rdatasets, sample_rdatasets-RdatasetsLaws}
use a_healthy_dns.Dns.Zones.Sample.{sample_zones, sample_zones-ZonesLaws}
use a_healthy_dns.Tools.Clock.{can_create_connection, uint32_current_time}
use a_healthy_dns.Records.HealthyRecord.{
  AHealthyRecord, make_a_record, a_rdataset, make_healthy_record, updated_ips,
}
use a_healthy_dns.Records.Soa.{next_serial, next_soa_record}
use a_healthy_dns.Updater.State.{aborted, calculate_max_interval}
use a_healthy_dns.Updater.State.Interval.{round_seconds, calculate_max_interval_lem}
use a_healthy_dns.Updater.Refresh.{
  check_ip, refresh_ips, refresh_a_record, refresh_records, refresh_a_recs,
}
use a_healthy_dns.Records.HealthyIp.{healthy_ip_eq, updated_status}
use a_healthy_dns.Base.Set.{set_eq}
use a_healthy_dns.Updater.Refresh.Statuses.{IsAborted}
use a_healthy_dns.Updater.Refresh.Rounds.{Round, AreRefreshed, refresh_a_recs-Round}
use a_healthy_dns.Updater.Rebuild.{
  initialize_zone, update, after_refresh, needs_update, is_zone_sign_near_to_expire,
  add_records_to_zone, add_soa_and_a_records, add_a_records, add_a_record_to_zone, add_if,
  clear_zone, delete_all, sign_and_commit, sign_zone, sign_with,
}
use a_healthy_dns.Updater.Rebuild.Triggers.{IsNeeded, update_lem}
use a_healthy_dns.Updater.Rebuild.Contents.{IsContent, initialize_zone-IsContent}
use a_healthy_dns.Updater.Current.{IsSound, IsCurrent, initialize_zone-IsCurrent}
use a_healthy_dns.Updater.Current.Renewed.{update-IsCurrent}
use a_healthy_dns.Updater.Sample.{
  unsigned-Keeps, fresh-IsSound, www, records-AllWellFormed, reachable, State, fresh, unsigned,
}

refresh_a_recs-Round_example :
    Round ascii_unicode ascii_unicode-AsciiLaws reachable (pos 2) sample_names 0 (www ∷ [])
refresh_a_recs-Round_example =
    refresh_a_recs-Round ascii_unicode ascii_unicode-AsciiLaws reachable (pos 2) sample_names 0
      (www ∷ []) records-AllWellFormed

abbrev rebuilt_result : Result (Option (State × List ℕ))
rebuilt_result =
    initialize_zone sample_names Text sample_rdatasets sample_zones unsigned fresh (7 ∷ []) (pos 0)

abbrev state_of : Result (Option (State × List ℕ)) → State
state_of (ok (some (self, readings))) = self
state_of _ = fresh

update_lem_example :
    ((m : ℕ) × IsAborted ascii_unicode ascii_unicode-AsciiLaws reachable (pos 2) 0 m
      × (refresh_a_recs ascii_unicode reachable (pos 2) sample_names 0 (www ∷ [])
          ≡ ok (aborted, www ∷ [], m))
      × (update sample_names Text sample_rdatasets sample_zones unsigned ascii_unicode reachable 0
            fresh
            (7 ∷ [])
            (pos 0)
          ≡ ok (some (fresh, 7 ∷ []))))
    ⊎ ((rs' : List (AHealthyRecord sample_names)) × AreRefreshed ascii_unicode
          ascii_unicode-AsciiLaws reachable
          (pos 2)
          sample_names
          (www ∷ [])
          rs'
        × ((IsNeeded sample_zones unsigned fresh rs' (pos 0)
              × (update sample_names Text sample_rdatasets sample_zones unsigned ascii_unicode
                    reachable 0 fresh
                    (7 ∷ [])
                    (pos 0)
                  ≡ initialize_zone sample_names Text sample_rdatasets sample_zones unsigned
                      (record fresh { a_recs = rs' })
                      (7 ∷ [])
                      (pos 0)))
            ⊎ ((¬ IsNeeded sample_zones unsigned fresh rs' (pos 0))
                × (update sample_names Text sample_rdatasets sample_zones unsigned ascii_unicode
                      reachable 0 fresh
                      (7 ∷ [])
                      (pos 0)
                    ≡ ok (some (record fresh { a_recs = rs' }, 7 ∷ []))))))
update_lem_example =
    update_lem sample_zones unsigned ascii_unicode ascii_unicode-AsciiLaws reachable 0 fresh
      (7 ∷ []) (pos 0) records-AllWellFormed

rebuilt : rebuilt_result ≡ ok (some (state_of rebuilt_result, []))
unfolding initialize_zone add_records_to_zone add_soa_and_a_records add_a_records
    add_a_record_to_zone add_if clear_zone delete_all sign_and_commit sign_zone sign_with
    next_soa_record next_serial uint32_current_time make_a_record a_rdataset frozenset
rebuilt = refl

initialize_zone-IsContent_example :
    IsContent sample_zones sample_names-NamesLaws sample_zones-ZonesLaws
      sample_rdatasets-RdatasetsLaws fresh
      (7 ∷ [])
      (state_of rebuilt_result).soa_rec
      []
      (state_of rebuilt_result).zone
initialize_zone-IsContent_example =
    initialize_zone-IsContent sample_zones sample_names-NamesLaws sample_zones-ZonesLaws
      sample_rdatasets-RdatasetsLaws unsigned (λ txn after key e name rdtype p. ground arith) fresh
      (7 ∷ []) (pos 0) (state_of rebuilt_result) [] refl (tt, tt) rebuilt

calculate_max_interval_lem_example :
    (n : ℕ) × (calculate_max_interval sample_names Text (pos 1) (pos 2) (www ∷ []) true ≡ pos n)
    × (1 ≤ n)
    × (round_seconds sample_names 2 true (www ∷ []) ≤ n)
    × ((n ≡ 1) ⊎ (n ≡ round_seconds sample_names 2 true (www ∷ [])))
calculate_max_interval_lem_example =
    calculate_max_interval_lem sample_names Text 1 2 (www ∷ []) true

-- An update of the updater that has built its zone, whose check finds nothing new.
abbrev quiet : Result (Option (State × List ℕ))
quiet =
    update sample_names Text sample_rdatasets sample_zones unsigned ascii_unicode reachable 0
      (state_of rebuilt_result) (8 ∷ []) (pos 0)

quiet_update : quiet ≡ ok (some (state_of rebuilt_result, 8 ∷ []))
unfolding update after_refresh needs_update is_zone_sign_near_to_expire refresh_a_recs
    refresh_records refresh_a_record refresh_ips check_ip can_create_connection updated_status
    updated_ips set_eq frozenset healthy_ip_eq make_healthy_record initialize_zone
    add_records_to_zone add_soa_and_a_records add_a_records add_a_record_to_zone add_if clear_zone
    delete_all sign_and_commit sign_zone sign_with next_soa_record next_serial uint32_current_time
    make_a_record a_rdataset
quiet_update = refl

rebuilt-IsCurrent :
    IsSound sample_zones sample_names-NamesLaws sample_zones-ZonesLaws
      sample_rdatasets-RdatasetsLaws
      (state_of rebuilt_result)
    × IsCurrent sample_zones sample_names-NamesLaws sample_zones-ZonesLaws
        sample_rdatasets-RdatasetsLaws
        (state_of rebuilt_result)
rebuilt-IsCurrent =
    initialize_zone-IsCurrent sample_zones sample_names-NamesLaws sample_zones-ZonesLaws
      sample_rdatasets-RdatasetsLaws unsigned unsigned-Keeps fresh (7 ∷ []) (pos 0)
      (state_of rebuilt_result) [] fresh-IsSound rebuilt

update-IsCurrent_example :
    IsSound sample_zones sample_names-NamesLaws sample_zones-ZonesLaws
      sample_rdatasets-RdatasetsLaws
      (state_of rebuilt_result)
    × IsCurrent sample_zones sample_names-NamesLaws sample_zones-ZonesLaws
        sample_rdatasets-RdatasetsLaws
        (state_of rebuilt_result)
update-IsCurrent_example =
    update-IsCurrent sample_zones sample_names-NamesLaws sample_zones-ZonesLaws
      sample_rdatasets-RdatasetsLaws unsigned unsigned-Keeps ascii_unicode ascii_unicode-AsciiLaws
      reachable 0 (state_of rebuilt_result) (state_of rebuilt_result) (8 ∷ []) (8 ∷ []) (pos 0)
      rebuilt-IsCurrent.0 rebuilt-IsCurrent.1 quiet_update
