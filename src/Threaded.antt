-- ===== src/Threaded.antt =====
-- dns_server_zone_updater_threaded.py. Logging is left out, and so is how long a wait takes: a wait
-- may end at any time.
pub mod Serving
pub mod Stopping
pub mod Sample
mod Tests
use a_healthy_dns.Base.{
  ℕ, suc, ◌≡◌, Bool, true, false, not, Option, none, some, List, if◌then◌else◌, Result, ok, raised,
  Exn, value_error, ◌>>=◌,
}
use a_healthy_dns.Base.Int.{ℤ, ◌+ℤ◌}
use a_healthy_dns.Dns.Names.{Names}
use a_healthy_dns.Dns.Rdatasets.{Rdatasets}
use a_healthy_dns.Dns.Zones.{Zones}
use a_healthy_dns.Unicode.{Unicode}
use a_healthy_dns.Records.Dnssec.{RrSigKey}
use a_healthy_dns.Updater.State.{
  DnsServerConfig, Updater, make_updater, delta_per_record_management,
}
use a_healthy_dns.Updater.Refresh.{Environment}
use a_healthy_dns.Updater.Rebuild.{initialize_zone, update}

-- Where the thread is in `_update_zone_loop`: before the test of the event, in the call of `update`,
-- in the wait, or behind the loop.
pub data Point : Type 0 where
  at_test updating waiting ended : Point

-- `self._updater_thread and self._updater_thread.is_alive()`
unfoldable pub is_alive : Option Point → Bool
is_alive none = false
is_alive (some ended) = false
is_alive (some point) = true

-- `while not self._stop_event.is_set()`
unfoldable pub after_test : Bool → Point
after_test stop_event = if not stop_event then updating else ended

module _ (names : Names) (Key : Type 0) (rdatasets : Rdatasets)
    (zones : Zones names rdatasets) where
  pub record ThreadedUpdater : Type 0 where
    pub updater : Updater names Key rdatasets zones
    pub min_interval : ℤ
    pub connection_timeout : ℤ
    pub stop_event : Bool
    pub updater_thread : Option Point

  -- `except Exception as ex: raise ValueError(…) from ex`
  unfoldable pub initialized :
      Result (Updater names Key rdatasets zones) → Result (Updater names Key rdatasets zones)
  initialized (ok updater) = ok updater
  initialized (raised e) = raised value_error

  -- `DnsServerZoneUpdaterThreaded.__init__`
  unfoldable pub make_threaded_updater :
      (names.Name → zones.Zone) → ℤ → ℤ → DnsServerConfig names Key → Result ThreadedUpdater
  unfolding initialized
  make_threaded_updater empty_zone min_interval connection_timeout config = do
    updater ←
        initialized
          (make_updater names Key rdatasets zones empty_zone min_interval connection_timeout config)
    ok (record {
      updater = updater;
      min_interval = min_interval;
      connection_timeout = connection_timeout;
      stop_event = false;
      updater_thread = none;
    })

  -- `stop`, where `join` is what the thread does before it ends or the time runs out.
  unfoldable pub stop :
      (ℤ → ThreadedUpdater → ThreadedUpdater) → ThreadedUpdater → Bool × ThreadedUpdater
  stop join self =
      if not (is_alive self.updater_thread)
      then (true, self)
      else let joined : ThreadedUpdater =
          join (self.connection_timeout +ℤ delta_per_record_management)
            (record self { stop_event = true }) in
        (not (is_alive joined.updater_thread), joined)

  module _ (sign : zones.Txn → RrSigKey Key → Result zones.Txn) where
    unfoldable pub launched :
        ThreadedUpdater
        → Option (Updater names Key rdatasets zones × List ℕ)
        → Option (ThreadedUpdater × List ℕ)
    launched self none = none
    launched self (some (updater, rest)) =
        some (
          record self { updater = updater; stop_event = false; updater_thread = some at_test },
          rest,
        )

    -- `start`, with the readings of the clock that `initialize_zone` takes
    unfoldable pub start : ThreadedUpdater → List ℕ → ℤ → Result (Option (ThreadedUpdater × List ℕ))
    unfolding launched
    start self readings now =
        if is_alive self.updater_thread then ok (some (self, readings)) else do
          built ← initialize_zone names Key rdatasets zones sign self.updater readings now
          ok (launched self built)

    module _ (u : Unicode) where
      -- A statement of `_update_zone_loop`. An exception ends the thread; the updater may be left with
      -- new records and generators, but the committed zone is as it was.
      pub data LoopStep (self : ThreadedUpdater) : ThreadedUpdater → Type 0 where
        tested :
            self.updater_thread ≡ some at_test
            → LoopStep self (record self { updater_thread = some (after_test self.stop_event) })
        updated :
            (env : Environment) (n : ℕ) (readings rest : List ℕ) (now : ℤ)
            (updater : Updater names Key rdatasets zones)
            → self.updater_thread ≡ some updating
            → update names Key rdatasets zones sign u env n self.updater readings now
              ≡ ok (some (updater, rest))
            → LoopStep self (record self { updater = updater; updater_thread = some waiting })
        crashed :
            (env : Environment) (n : ℕ) (readings : List ℕ) (now : ℤ) (e : Exn)
            (left : Updater names Key rdatasets zones)
            → self.updater_thread ≡ some updating
            → update names Key rdatasets zones sign u env n self.updater readings now ≡ raised e
            → left.zone ≡ self.updater.zone
            → LoopStep self (record self { updater = left; updater_thread = some ended })
        woken :
            self.updater_thread ≡ some waiting
            → LoopStep self (record self { updater_thread = some at_test })

      -- A statement of the thread, or the first part of `stop` on the main thread.
      pub data Step (self : ThreadedUpdater) : ThreadedUpdater → Type 0 where
        looped : {next : ThreadedUpdater} → LoopStep self next → Step self next
        stopping :
            is_alive self.updater_thread ≡ true → Step self (record self { stop_event = true })

      pub data Run (self : ThreadedUpdater) : ThreadedUpdater → Type 0 where
        nothing : Run self self
        then_step : {s t : ThreadedUpdater} → Run self s → Step s t → Run self t

      -- A run of the thread alone, with the number of its statements.
      pub data LoopRun : ThreadedUpdater → ℕ → ThreadedUpdater → Type 0 where
        no_step : (s : ThreadedUpdater) → LoopRun s 0 s
        one_more :
            (r s t : ThreadedUpdater) (n : ℕ) → LoopStep r s → LoopRun s n t → LoopRun r (suc n) t
