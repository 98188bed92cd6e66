-- ===== src/Updater/State/Interval.antt =====
-- The interval that the times to live are calculated from.
use a_healthy_dns.Base.{
  ℕ, ◌+◌, ◌*◌, ◌≤◌, ◌≡◌, ◌⊎◌, refl, inl, inr, Bool, true, false, is_some, List, [], ◌∷◌, arith,
  Bool-cases, if◌then◌else◌,
}
use a_healthy_dns.Base.Int.{pos, ◌+ℤ◌, ◌*ℤ◌, ltb_ℤ}
use a_healthy_dns.Dns.Names.{Names}
use a_healthy_dns.Records.HealthyIp.{AHealthyIp}
use a_healthy_dns.Records.HealthyRecord.{AHealthyRecord}
use a_healthy_dns.Updater.State.{calculate_max_interval, loop_duration, probed_count}

-- How many addresses have a health port.
abbrev pub probes : List AHealthyIp → ℕ
probes [] = 0
probes (x ∷ xs) = (if is_some x.health_port then 1 else 0) + probes xs

probed_count-pos : (xs : List AHealthyIp) → probed_count xs ≡ pos (probes xs)
unfolding probed_count
probed_count-pos [] = refl
probed_count-pos (x ∷ xs) = ground (arith, probed_count-pos xs)

module _ (names : Names) where
  -- The seconds that a round takes at most: the timeout for each probe, and for each record 1 second
  -- and, where the zone is signed, 2 more.
  abbrev pub round_seconds : ℕ → Bool → List (AHealthyRecord names) → ℕ
  round_seconds timeout do_sign [] = 0
  round_seconds timeout do_sign (r ∷ rs) =
      probes r.healthy_ips * timeout + (if do_sign then 3 else 1) + round_seconds timeout do_sign rs

module _ (names : Names) (Key : Type 0) where
  step :
      (k timeout d rest : ℕ)
      → pos k *ℤ pos timeout +ℤ pos d +ℤ pos rest ≡ pos (k * timeout + d + rest)
  step k timeout d rest = ground arith

  loop_duration-pos :
      (timeout : ℕ) (do_sign : Bool) (rs : List (AHealthyRecord names))
      → loop_duration names Key (pos timeout) (pos (if do_sign then 3 else 1)) rs
        ≡ pos (round_seconds names timeout do_sign rs)
  unfolding loop_duration
  loop_duration-pos timeout do_sign [] = refl
  loop_duration-pos timeout do_sign (r ∷ rs) =
      rw (probed_count-pos r.healthy_ips, loop_duration-pos timeout do_sign rs)
        (step (probes r.healthy_ips) timeout (if do_sign then 3 else 1)
          (round_seconds names timeout do_sign rs))

  delta :
      (do_sign : Bool)
      → pos 1 +ℤ (if do_sign then pos 2 else pos 0) ≡ pos (if do_sign then 3 else 1)
  delta true = refl
  delta false = refl

  -- For a minimum and a timeout that are natural numbers, the maximal interval is the larger of
  -- the minimum and the seconds allowed for a round: the timeout for each address with a health
  -- port, and for each record 1 second, or 3 where the zone is signed.
  pub calculate_max_interval_lem :
      (min_interval timeout : ℕ) (rs : List (AHealthyRecord names)) (do_sign : Bool)
      → (n : ℕ) × (calculate_max_interval names Key (pos min_interval) (pos timeout) rs do_sign
          ≡ pos n)
        × (min_interval ≤ n)
        × (round_seconds names timeout do_sign rs ≤ n)
        × ((n ≡ min_interval) ⊎ (n ≡ round_seconds names timeout do_sign rs))
  unfolding calculate_max_interval
  calculate_max_interval_lem min_interval timeout rs do_sign =
      let secs = round_seconds names timeout do_sign rs in
      let duration = loop_duration-pos timeout do_sign rs in
      elim (Bool-cases (ltb_ℤ (pos min_interval) (pos secs))) [
        | inl less ↦
            (secs, rw (delta do_sign, duration, less) refl, ground arith, omega arith, inr refl)
        | inr more ↦ (
          min_interval,
          rw (delta do_sign, duration, more) refl,
          omega arith,
          ground arith,
          inl refl,
        )
      ]
