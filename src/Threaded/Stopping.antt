-- ===== src/Threaded/Stopping.antt =====
-- Once the event is set, the thread ends.
use a_healthy_dns.Base.{
  ℕ, suc, ◌+◌, ◌≤◌, ◌≡◌, ◌⊎◌, refl, inl, inr, true, Option, none, some, List, arith, Result, ok,
  raised, Exn,
}
use a_healthy_dns.Base.Int.{ℤ}
use a_healthy_dns.Dns.Names.{Names}
use a_healthy_dns.Dns.Rdatasets.{Rdatasets}
use a_healthy_dns.Dns.Zones.{Zones}
use a_healthy_dns.Unicode.{Unicode}
use a_healthy_dns.Records.Dnssec.{RrSigKey}
use a_healthy_dns.Updater.State.{Updater}
use a_healthy_dns.Updater.Refresh.{Environment}
use a_healthy_dns.Updater.Rebuild.{update}
use a_healthy_dns.Threaded.{
  Point, at_test, updating, waiting, ended, after_test, ThreadedUpdater, LoopStep, tested, updated,
  crashed, woken, LoopRun, no_step, one_more,
}

-- How many statements are left to the thread when the event is set.
abbrev statements_left : Option Point → ℕ
statements_left none = 0
statements_left (some ended) = 0
statements_left (some at_test) = 1
statements_left (some waiting) = 2
statements_left (some updating) = 3

module _ (names : Names) (Key : Type 0) (rdatasets : Rdatasets) (zones : Zones names rdatasets)
    (sign : zones.Txn → RrSigKey Key → Result zones.Txn) (u : Unicode) where
  -- The call of `update` comes to an end, with some environment and readings of the clock.
  abbrev pub Ends : Updater names Key rdatasets zones → Type 0
  Ends self =
      (env : Environment) × (n : ℕ) × (readings : List ℕ) × (now : ℤ) × (((next : Updater names Key
            rdatasets zones)
          × (rest : List ℕ) × (update names Key rdatasets zones sign u env n self readings now
              ≡ ok (some (next, rest))))
        ⊎ ((e : Exn) × (update names Key rdatasets zones sign u env n self readings now
              ≡ raised e)))

  abbrev State : Type 0
  State = ThreadedUpdater names Key rdatasets zones

  loop_step_left :
      (s t : State)
      → LoopStep names Key rdatasets zones sign u s t
      → s.stop_event ≡ true
      → (t.stop_event ≡ true)
        × (suc (statements_left t.updater_thread) ≤ statements_left s.updater_thread)
  unfolding after_test
  loop_step_left s _ (tested p) h = (h, rw (p, h) (omega arith))
  loop_step_left s _ (updated env n readings rest now updater p e) h = (h, rw p (omega arith))
  loop_step_left s _ (crashed env n readings now e left p r z) h = (h, rw p (omega arith))
  loop_step_left s _ (woken p) h = (h, rw p (omega arith))

  run_left :
      (s t : State) (k : ℕ)
      → LoopRun names Key rdatasets zones sign u s k t
      → s.stop_event ≡ true
      → k + statements_left t.updater_thread ≤ statements_left s.updater_thread
  run_left s _ _ (no_step _) h = omega arith
  run_left s t _ (one_more _ r _ k one more) h =
      let (h', l) = loop_step_left s r one h in omega (arith, run_left r t k more h', l)

  pub left_at_most : (p : Option Point) → statements_left p ≤ 3
  left_at_most none = omega arith
  left_at_most (some at_test) = omega arith
  left_at_most (some updating) = omega arith
  left_at_most (some waiting) = omega arith
  left_at_most (some ended) = omega arith

  -- A run to the end of the thread.
  abbrev pub RunsOut : State → Type 0
  RunsOut s =
      (k : ℕ) × (t : State) × LoopRun names Key rdatasets zones sign u s k t
      × (t.updater_thread ≡ some ended)

  from_test : (s : State) → s.updater_thread ≡ some at_test → s.stop_event ≡ true → RunsOut s
  unfolding after_test
  from_test s p h = (1, _, one_more s _ _ 0 (tested p) (no_step _), rw h refl)

  from_wait : (s : State) → s.updater_thread ≡ some waiting → s.stop_event ≡ true → RunsOut s
  from_wait s p h =
      let next : State = record s { updater_thread = some at_test } in
      let (k, t, run, e) = from_test next refl h in (suc k, t, one_more s next t k (woken p) run, e)

  from_update :
      (s : State)
      → Ends s.updater
      → s.updater_thread ≡ some updating
      → s.stop_event ≡ true
      → RunsOut s
  from_update s (env, n, readings, now, inl (updater, rest, e)) p h =
      let next : State = record s { updater = updater; updater_thread = some waiting } in
      let (k, t, run, e') = from_wait next refl h in
      (suc k, t, one_more s next t k (updated env n readings rest now updater p e) run, e')
  from_update s (env, n, readings, now, inr (e, r)) p h =
      (1, _, one_more s _ _ 0 (crashed env n readings now e s.updater p r refl) (no_step _), refl)

  runs_out :
      (s : State) (p : Point)
      → Ends s.updater
      → s.updater_thread ≡ some p
      → s.stop_event ≡ true
      → RunsOut s
  runs_out s at_test ends p h = from_test s p h
  runs_out s waiting ends p h = from_wait s p h
  runs_out s updating ends p h = from_update s ends p h
  runs_out s ended ends p h = (0, s, no_step s, p)

  -- When the event is set and the call of `update`, if one is running, comes to an end, the thread can
  -- run to the end of the loop, and it makes at most three statements of the loop: the rest of an
  -- update, the wait and the test.
  pub stopped-RunsOut :
      (s : State) (p : Point)
      → Ends s.updater
      → s.updater_thread ≡ some p
      → s.stop_event ≡ true
      → RunsOut s × ((k : ℕ) (t : State) → LoopRun names Key rdatasets zones sign u s k t → k ≤ 3)
  stopped-RunsOut s p ends e h = (
    runs_out s p ends e h,
    λ k t run. omega (arith, run_left s t k run h, left_at_most s.updater_thread),
  )
