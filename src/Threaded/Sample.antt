-- ===== src/Threaded/Sample.antt =====
-- An updater with a thread, before and after its start.
use a_healthy_dns.Base.{ℕ, ◌≡◌, refl, true, false, none, some, List, [], ◌∷◌, Option, Result, ok}
use a_healthy_dns.Base.Int.{pos}
use a_healthy_dns.Base.Set.{frozenset}
use a_healthy_dns.Base.Text.{Text}
use a_healthy_dns.Unicode.{ascii_unicode}
use a_healthy_dns.Dns.Names.Sample.{sample_names}
use a_healthy_dns.Dns.Rdatasets.Sample.{sample_rdatasets}
use a_healthy_dns.Dns.Zones.Sample.{sample_zones}
use a_healthy_dns.Tools.Clock.{uint32_current_time}
use a_healthy_dns.Records.HealthyRecord.{make_a_record, a_rdataset}
use a_healthy_dns.Records.Soa.{next_serial, next_soa_record}
use a_healthy_dns.Updater.Sample.{www, fresh, unsigned}
use a_healthy_dns.Updater.Rebuild.{
  initialize_zone, add_records_to_zone, add_soa_and_a_records, add_a_records, add_a_record_to_zone,
  add_if, clear_zone, delete_all, sign_and_commit, sign_zone, sign_with,
}
use a_healthy_dns.Threaded.{
  is_alive, after_test, ThreadedUpdater, launched, start, Run, nothing, then_step, looped, stopping,
  tested,
}

abbrev pub Threads : Type 0
Threads = ThreadedUpdater sample_names Text sample_rdatasets sample_zones

abbrev pub idle : Threads
idle = record {
  updater = fresh;
  min_interval = pos 30;
  connection_timeout = pos 2;
  stop_event = false;
  updater_thread = none;
}

abbrev start_result : Result (Option (Threads × List ℕ))
start_result = start sample_names Text sample_rdatasets sample_zones unsigned idle (7 ∷ []) (pos 0)

abbrev threads_of : Result (Option (Threads × List ℕ)) → Threads
threads_of (ok (some (self, readings))) = self
threads_of _ = idle

abbrev pub started : Threads
started = threads_of start_result

pub idle_thread : is_alive idle.updater_thread ≡ false
unfolding is_alive
idle_thread = refl

pub idle_starts :
    start sample_names Text sample_rdatasets sample_zones unsigned idle (7 ∷ []) (pos 0)
    ≡ ok (some (started, []))
unfolding start launched is_alive initialize_zone add_records_to_zone add_soa_and_a_records
    add_a_records add_a_record_to_zone add_if clear_zone delete_all sign_and_commit sign_zone
    sign_with next_soa_record next_serial uint32_current_time make_a_record a_rdataset frozenset
idle_starts = refl

-- The thread has tested the event, and then `stop` is called.
abbrev pub stopped_in_update : Threads
stopped_in_update = record started { updater_thread = some (after_test false); stop_event = true }

pub started_runs :
    Run sample_names Text sample_rdatasets sample_zones unsigned ascii_unicode started
      stopped_in_update
unfolding after_test start launched is_alive initialize_zone add_records_to_zone
    add_soa_and_a_records add_a_records add_a_record_to_zone add_if clear_zone delete_all
    sign_and_commit sign_zone sign_with next_soa_record next_serial uint32_current_time
    make_a_record a_rdataset frozenset
started_runs = then_step (then_step nothing (looped (tested refl))) (stopping refl)

pub in_update : is_alive stopped_in_update.updater_thread ≡ true
unfolding is_alive after_test
in_update = refl

pub served_records : stopped_in_update.updater.a_recs ≡ www ∷ []
unfolding start launched is_alive initialize_zone add_records_to_zone add_soa_and_a_records
    add_a_records add_a_record_to_zone add_if clear_zone delete_all sign_and_commit sign_zone
    sign_with next_soa_record next_serial uint32_current_time make_a_record a_rdataset frozenset
served_records = refl
