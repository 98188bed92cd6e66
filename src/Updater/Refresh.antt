-- ===== src/Updater/Refresh.antt =====
-- `_refresh_a_record` and `_refresh_a_recs`: the health checks. The environment decides, at each call
-- that leaves the program, what comes back; the calls are numbered in the order in which they are made.
pub mod Statuses
pub mod Rounds
use a_healthy_dns.Base.{
  ℕ, suc, Bool, true, false, not, ◌||◌, Option, none, some, List, [], ◌∷◌, if◌then◌else◌, Result,
  ok, raised, ◌>>=◌,
}
use a_healthy_dns.Base.Int.{ℤ}
use a_healthy_dns.Base.Set.{set_eq}
use a_healthy_dns.Base.Text.{Text}
use a_healthy_dns.Dns.Names.{Names}
use a_healthy_dns.Unicode.{Unicode}
use a_healthy_dns.Tools.Clock.{Attempt, connected, failed, can_create_connection}
use a_healthy_dns.Records.HealthyIp.{AHealthyIp, healthy_ip_eq, updated_status}
use a_healthy_dns.Records.HealthyRecord.{AHealthyRecord, updated_ips}
use a_healthy_dns.Updater.State.{RefreshARecordsResult, no_changes, changes, aborted}

-- `should_abort n` and `connect n` are what call number `n` gives, if it is one of these.
pub record Environment : Type 0 where
  pub should_abort : ℕ → Bool
  pub connect : ℕ → Text → ℤ → ℤ → Attempt

module _ (u : Unicode) (env : Environment) (connection_timeout : ℤ) where
  -- The status of one address at call `n`, and the number of the next call.
  unfoldable pub check_ip : ℕ → AHealthyIp → Bool × ℕ
  check_ip n x = elim x.health_port [
    | none ↦ (true, n)
    | some port ↦ (can_create_connection (env.connect n x.ip port connection_timeout), suc n)
  ]

  -- The loop of `_refresh_a_record` from call `n` on: the checked addresses, or nothing if it was
  -- told to abort, and the number of the next call.
  unfoldable pub refresh_ips : ℕ → List AHealthyIp → Result (Option (List AHealthyIp) × ℕ)
  unfolding check_ip
  refresh_ips n [] = ok (some [], n)
  refresh_ips n (x ∷ xs) =
      let (is_healthy, n') = check_ip (suc n) x in
      let rest = refresh_ips n' xs in
      if env.should_abort n then ok (none, suc n) else do
        checked_ip ← updated_status u x is_healthy
        checked ← rest
        ok (elim checked.0 [ none ↦ none | some ips ↦ some (checked_ip ∷ ips) ], checked.1)

  module _ (names : Names) where
    unfoldable pub refresh_a_record :
        ℕ → AHealthyRecord names → Result (Option (AHealthyRecord names) × ℕ)
    refresh_a_record n a_record = do
      checked ← refresh_ips n a_record.healthy_ips
      ok (
        elim checked.0 [ none ↦ none | some ips ↦ some (updated_ips names a_record ips) ],
        checked.1,
      )

    -- The loop of `_refresh_a_recs` from call `n` on: the checked records and whether one of them
    -- has changed, or nothing if it was told to abort.
    unfoldable pub refresh_records :
        ℕ → List (AHealthyRecord names) → Result (Option (List (AHealthyRecord names) × Bool) × ℕ)
    refresh_records n [] = ok (some ([], false), n)
    refresh_records n (r ∷ rs) = do
      checked ← refresh_a_record n r
      elim checked.0 [
        | none ↦ ok (none, checked.1)
        | some checked_record ↦ do
          rest ← refresh_records checked.1 rs
          ok (
            elim rest.0 [
              | none ↦ none
              | some (records, changed) ↦ some (
                checked_record ∷ records,
                not (set_eq healthy_ip_eq checked_record.healthy_ips r.healthy_ips) || changed,
              )
            ],
            rest.1,
          )
      ]

    abbrev result_of : Option (List (AHealthyRecord names) × Bool) → RefreshARecordsResult
    result_of none = aborted
    result_of (some (records, changed)) = if changed then changes else no_changes

    abbrev records_of :
        List (AHealthyRecord names)
        → Option (List (AHealthyRecord names) × Bool)
        → List (AHealthyRecord names)
    records_of before none = before
    records_of before (some (records, changed)) = records

    -- `_refresh_a_recs` from call `n` on: its result and the records after it.
    unfoldable pub refresh_a_recs :
        ℕ
        → List (AHealthyRecord names)
        → Result (RefreshARecordsResult × List (AHealthyRecord names) × ℕ)
    refresh_a_recs n a_recs = do
      checked ← refresh_records n a_recs
      ok (result_of checked.0, records_of a_recs checked.0, checked.1)
