-- ===== src/Main/Stops.antt =====
-- How `_main` ends.
use a_healthy_dns.Base.{
  ℕ, subst, ◌≡◌, ◌≢◌, ◌↔◌, ◌⊎◌, refl, inl, inr, true, false, Option, none, some, List, arith,
  Result, ok, raised, Bool-cases,
}
use a_healthy_dns.Base.Int.{ℤ, ◌+ℤ◌}
use a_healthy_dns.Unicode.{Unicode}
use a_healthy_dns.Dns.Names.{Names}
use a_healthy_dns.Dns.Rdatasets.{Rdatasets}
use a_healthy_dns.Dns.Zones.{Zones}
use a_healthy_dns.Updater.State.{DnsServerConfig, delta_per_record_management}
use a_healthy_dns.Config.{Loading, make_config}
use a_healthy_dns.Threaded.{is_alive, make_threaded_updater, start, stop}
use a_healthy_dns.Main.{
  MainArgs, Pair, ZoneUpdater, Ending, Calls, finally_stop, after_start, after_init, after_config,
  main,
}

some_eq : {A : Type 0} {a b : A} → some a ≡ some b → a ≡ b
some_eq h = ground arith

module _ (names : Names) (u : Unicode) (loading : Loading) (rdatasets : Rdatasets)
    (zones : Zones names rdatasets) (calls : Calls names u loading rdatasets zones)
    (args : MainArgs) (readings : List ℕ) (now : ℤ) where
  abbrev Updating : Type 0
  Updating = ZoneUpdater names u loading rdatasets zones

  abbrev End : Type 0
  End = Ending names u loading rdatasets zones

  -- The thread has ended, or it has been told to.
  abbrev pub IsToldToStop : Option Updating → Type 0
  IsToldToStop none = Unit
  IsToldToStop (some self) = (is_alive self.updater_thread ≡ false) ⊎ (self.stop_event ≡ true)

  -- Waiting for the thread does not clear the event.
  abbrev pub KeepsEvent : Type 0
  KeepsEvent =
      (timeout : ℤ) (self : Updating)
      → self.stop_event ≡ true
      → (calls.join timeout self).stop_event ≡ true

  told_to_stop :
      KeepsEvent
      → (self : Updating)
      → IsToldToStop (
          some
            (stop names (Pair names u loading rdatasets zones) rdatasets zones calls.join self).1)
  unfolding stop
  told_to_stop keeps self = elim (Bool-cases (is_alive self.updater_thread)) [
    | inl e ↦ rw e (
        inr (
          keeps (self.connection_timeout +ℤ delta_per_record_management)
            (record self { stop_event = true }) refl))
    | inr e ↦ rw e (inl e)
  ]

  -- An ending other than that without a configuration: the code is not 1, and an updater that has
  -- been started has been told to stop.
  abbrev IsOrderly : End → Type 0
  IsOrderly ending = (ending.outcome ≢ ok 1) × IsToldToStop ending.zone_updater

  of_serve :
      KeepsEvent
      → (served : Result (Unit {0}) × Updating)
      → IsOrderly (finally_stop names u loading rdatasets zones calls args readings now served)
  unfolding finally_stop
  of_serve keeps (ok done, self) = (λ e. cc, told_to_stop keeps self)
  of_serve keeps (raised e, self) = (λ h. cc, told_to_stop keeps self)

  abbrev Config : Type 0
  Config = DnsServerConfig names (Pair names u loading rdatasets zones)

  of_start :
      KeepsEvent
      → (config : Config) (started : Result (Option (Updating × List ℕ))) (ending : End)
      → after_start names u loading rdatasets zones calls args readings now config started
        ≡ some ending
      → IsOrderly ending
  unfolding after_start
  of_start keeps config (raised e) ending h =
      let same = some_eq h in subst IsOrderly same ((λ k. cc), tt)
  of_start keeps config (ok none) ending h = cc
  of_start keeps config (ok (some (self, rest))) ending h =
      subst IsOrderly (some_eq h)
        (of_serve keeps (calls.serve args.port self.updater.zone config.zone_origins self))

  of_init :
      KeepsEvent
      → (config : Config) (made : Result Updating) (ending : End)
      → after_init names u loading rdatasets zones calls args readings now config made ≡ some ending
      → IsOrderly ending
  unfolding after_init
  of_init keeps config (raised e) ending h = subst IsOrderly (some_eq h) ((λ k. cc), tt)
  of_init keeps config (ok self) ending h =
      of_start keeps config
        (start names (Pair names u loading rdatasets zones) rdatasets zones calls.sign self readings
          now)
        ending h

  -- How an ending goes with the configuration.
  abbrev pub IsEndingOf : Result (Option Config) → End → Type 0
  IsEndingOf config ending =
      ((ending.outcome ≡ ok 1) ↔ (config ≡ ok none)) × IsToldToStop ending.zone_updater

  of_config :
      KeepsEvent
      → (config : Result (Option Config)) (ending : End)
      → after_config names u loading rdatasets zones calls args readings now config ≡ some ending
      → IsEndingOf config ending
  unfolding after_config
  of_config keeps (raised e) ending h =
      subst (IsEndingOf (raised e)) (some_eq h) (((λ k. cc), λ k. cc), tt)
  of_config keeps (ok none) ending h =
      subst (IsEndingOf (ok none)) (some_eq h) (((λ k. refl), λ k. refl), tt)
  of_config keeps (ok (some config)) ending h =
      let (no_code, told) =
        of_init keeps config
          (make_threaded_updater names (Pair names u loading rdatasets zones) rdatasets zones
            calls.empty_zone args.min_interval args.connection_timeout config)
          ending h in
      (((λ k. absurd (no_code k)), λ k. cc), told)

  -- Where waiting for the thread does not clear its event: `_main` returns 1 exactly when
  -- `make_config` returns no configuration; and however it ends, by a value or an exception, the
  -- thread of an updater that has been started has ended or has been told to stop.
  pub main-IsEndingOf :
      (ending : End)
      → KeepsEvent
      → main names u loading rdatasets zones calls args readings now ≡ some ending
      → IsEndingOf (make_config names u loading args.config_args) ending
  unfolding main
  main-IsEndingOf ending keeps h =
      of_config keeps (make_config names u loading args.config_args) ending h
