-- ===== src/Updater/Refresh/Rounds.antt =====
-- What `_refresh_a_recs` gives: all records checked and whether one has changed, or nothing done.
use a_healthy_dns.Base.{
  ℕ, ◌≤◌, ◌≡◌, ◌⊎◌, refl, inl, inr, Bool, true, false, not, ◌&&◌, Option, none, some, List, [], ◌∷◌,
  arith, All, ok, if◌then◌else◌,
}
use a_healthy_dns.Base.Int.{ℤ}
use a_healthy_dns.Base.Set.{set_eq}
use a_healthy_dns.Dns.Names.{Names}
use a_healthy_dns.Unicode.{Unicode, AsciiLaws}
use a_healthy_dns.Records.HealthyIp.{healthy_ip_eq}
use a_healthy_dns.Records.HealthyRecord.{AHealthyRecord}
use a_healthy_dns.Records.HealthyRecord.Sets.{IsWellFormedRecord}
use a_healthy_dns.Updater.State.{no_changes, changes, aborted}
use a_healthy_dns.Updater.Refresh.{Environment, refresh_a_record, refresh_records, refresh_a_recs}
use a_healthy_dns.Updater.Refresh.Statuses.{
  IsRefreshed, IsAborted, IsAborted-before, RecordOutcome, record_stopped, refreshed,
  refresh_a_record-RecordOutcome,
}

module _ (names : Names) where
  -- Each record has the addresses, with their statuses, that it had before.
  abbrev pub same_ips : List (AHealthyRecord names) → List (AHealthyRecord names) → Bool
  same_ips [] rs' = true
  same_ips (r ∷ rs) [] = true
  same_ips (r ∷ rs) (r' ∷ rs') =
      set_eq healthy_ip_eq r'.healthy_ips r.healthy_ips && same_ips rs rs'

module _ (u : Unicode) (laws : AsciiLaws u) (env : Environment) (connection_timeout : ℤ)
    (names : Names) where
  abbrev Rs : Type 0
  Rs = List (AHealthyRecord names)

  abbrev pub AreRefreshed : Rs → Rs → Type 0
  AreRefreshed [] [] = Unit
  AreRefreshed [] (r' ∷ rs') = ⊥
  AreRefreshed (r ∷ rs) [] = ⊥
  AreRefreshed (r ∷ rs) (r' ∷ rs') =
      IsRefreshed u laws env connection_timeout names r r' × AreRefreshed rs rs'

  abbrev IsAbortedRound : ℕ → ℕ → Type 0
  IsAbortedRound n m = IsAborted u laws env connection_timeout n m

  data RoundOutcome (n m : ℕ) (rs : Rs) : Option (Rs × Bool) → Type 0 where
    round_stopped : IsAbortedRound n m → RoundOutcome n m rs none
    round_done :
        (rs' : Rs)
        → AreRefreshed rs rs'
        → RoundOutcome n m rs (some (rs', not (same_ips names rs rs')))

  abbrev RoundResult : ℕ → Rs → Type 0
  RoundResult n rs =
      (o : Option (Rs × Bool)) × (m : ℕ) × (refresh_records u env connection_timeout names n rs
        ≡ ok (o, m))
      × RoundOutcome n m rs o

  add_record :
      (n k : ℕ) (r r' : AHealthyRecord names) (rs : Rs) (o : Option (Rs × Bool)) (m : ℕ)
      → n ≤ k
      → refresh_a_record u env connection_timeout names n r ≡ ok (some r', k)
      → IsRefreshed u laws env connection_timeout names r r'
      → refresh_records u env connection_timeout names k rs ≡ ok (o, m)
      → RoundOutcome k m rs o
      → RoundResult n (r ∷ rs)
  unfolding refresh_records
  add_record n k r r' rs o m later e c f (round_stopped a) = (
    none,
    m,
    rw (e, f) refl,
    round_stopped (IsAborted-before u laws env connection_timeout n k m later a),
  )
  add_record n k r r' rs o m later e c f (round_done rs' cs) = (
    some (r' ∷ rs', not (same_ips names (r ∷ rs) (r' ∷ rs'))),
    m,
    rw (e, f) (ground arith),
    round_done (r' ∷ rs') (c, cs),
  )

  after_record :
      (n : ℕ) (r : AHealthyRecord names) (rs : Rs) (o : Option (AHealthyRecord names)) (k : ℕ)
      → refresh_a_record u env connection_timeout names n r ≡ ok (o, k)
      → RecordOutcome u laws env connection_timeout names n k r o
      → RoundResult k rs
      → RoundResult n (r ∷ rs)
  unfolding refresh_records
  after_record n r rs o k e (record_stopped a) rest = (none, k, rw e refl, round_stopped a)
  after_record n r rs o k e (refreshed r' later c) rest =
      let (o', m, f, d) = rest in add_record n k r r' rs o' m later e c f d

  refresh_records-RoundOutcome :
      (n : ℕ) (rs : Rs) → All (IsWellFormedRecord names) rs → RoundResult n rs
  unfolding refresh_records
  refresh_records-RoundOutcome n [] w = (some ([], false), n, refl, round_done [] tt)
  refresh_records-RoundOutcome n (r ∷ rs) w =
      let (o, k, e, c) =
        refresh_a_record-RecordOutcome u laws env connection_timeout names n r w.0 in
      after_record n r rs o k e c (refresh_records-RoundOutcome k rs w.1)

  -- How a round over the records `rs` from call `n` on ends.
  abbrev pub Round : ℕ → Rs → Type 0
  Round n rs =
      ((m : ℕ) × IsAborted u laws env connection_timeout n m
        × (refresh_a_recs u env connection_timeout names n rs ≡ ok (aborted, rs, m)))
      ⊎ ((rs' : Rs) × (m : ℕ) × (refresh_a_recs u env connection_timeout names n rs
            ≡ ok (if same_ips names rs rs' then no_changes else changes, rs', m))
          × AreRefreshed rs rs')

  of_Round :
      (n : ℕ) (rs : Rs) (o : Option (Rs × Bool)) (m : ℕ)
      → refresh_records u env connection_timeout names n rs ≡ ok (o, m)
      → RoundOutcome n m rs o
      → Round n rs
  unfolding refresh_a_recs
  of_Round n rs o m e (round_stopped a) = inl (m, a, rw e refl)
  of_Round n rs o m e (round_done rs' c) = inr (rs', m, rw e (ground arith), c)

  -- On well-formed records a round raises nothing. Either its last call was a test whether to abort
  -- that said yes, and the result is an abort, with the records as they were; or each record keeps
  -- its name and has just its old addresses and ports, each with the status that a check found, made
  -- right after a test whether to abort that said no: healthy without a port, and otherwise whether
  -- that call made a connection to the address and port. Then the result is that nothing has changed exactly when every
  -- record has the same set of addresses and statuses as before.
  pub refresh_a_recs-Round :
      (n : ℕ) (rs : Rs)
      → All (IsWellFormedRecord names) rs
      → ((m : ℕ) × IsAborted u laws env connection_timeout n m
          × (refresh_a_recs u env connection_timeout names n rs ≡ ok (aborted, rs, m)))
        ⊎ ((rs' : Rs) × (m : ℕ) × (refresh_a_recs u env connection_timeout names n rs
              ≡ ok (if same_ips names rs rs' then no_changes else changes, rs', m))
            × AreRefreshed rs rs')
  refresh_a_recs-Round n rs w =
      let (o, m, e, c) = refresh_records-RoundOutcome n rs w in of_Round n rs o m e c
