-- ===== src/Threaded/Tests.antt =====
-- A start, a test and a stop.
use a_healthy_dns.Base.{ℕ, ◌≤◌, refl, inl, true, some, [], ◌∷◌}
use a_healthy_dns.Base.Int.{pos}
use a_healthy_dns.Base.Text.{Text}
use a_healthy_dns.Unicode.{ascii_unicode, ascii_unicode-AsciiLaws}
use a_healthy_dns.Dns.Names.Sample.{sample_names, sample_names-NamesLaws}
use a_healthy_dns.Dns.Rdatasets.Sample.{sample_rdatasets, sample_rdatasets-RdatasetsLaws}
use a_healthy_dns.Dns.Zones.Sample.{sample_zones, sample_zones-ZonesLaws}
use a_healthy_dns.Updater.Sample.{
  fresh, unsigned, unsigned-Keeps, fresh-IsSound, stopped, stopped-update,
}
use a_healthy_dns.Threaded.{updating, LoopRun}
use a_healthy_dns.Threaded.Serving.{IsServing, start-Run-IsServing}
use a_healthy_dns.Threaded.Stopping.{Ends, RunsOut, stopped-RunsOut}
use a_healthy_dns.Threaded.Sample.{
  Threads, idle, started, idle_thread, idle_starts, stopped_in_update, started_runs,
}

start-Run-IsServing_example :
    IsServing sample_zones sample_names-NamesLaws sample_zones-ZonesLaws
      sample_rdatasets-RdatasetsLaws unsigned unsigned-Keeps ascii_unicode ascii_unicode-AsciiLaws
      stopped_in_update
start-Run-IsServing_example =
    start-Run-IsServing sample_zones sample_names-NamesLaws sample_zones-ZonesLaws
      sample_rdatasets-RdatasetsLaws unsigned unsigned-Keeps ascii_unicode ascii_unicode-AsciiLaws
      idle started stopped_in_update (7 ∷ []) [] (pos 0) idle_thread fresh-IsSound idle_starts
      started_runs

abbrev in_first_update : Threads
in_first_update = record idle { updater_thread = some updating; stop_event = true }

fresh-Ends : Ends sample_names Text sample_rdatasets sample_zones unsigned ascii_unicode fresh
fresh-Ends = (stopped, 0, 7 ∷ [], pos 0, inl (fresh, 7 ∷ [], stopped-update))

stopped-RunsOut_example :
    RunsOut sample_names Text sample_rdatasets sample_zones unsigned ascii_unicode in_first_update
    × ((k : ℕ) (t : Threads)
        → LoopRun sample_names Text sample_rdatasets sample_zones unsigned ascii_unicode
            in_first_update k t
        → k ≤ 3)
stopped-RunsOut_example =
    stopped-RunsOut sample_names Text sample_rdatasets sample_zones unsigned ascii_unicode
      in_first_update updating fresh-Ends refl refl
