-- ===== src/Records/Dnssec/Timing.antt =====
-- When a signature is made, renewed and expires.
use a_healthy_dns.Base.{ℕ, ◌<◌, ◌≡◌, refl, [], ◌∷◌, arith}
use a_healthy_dns.Base.Int.{ℤ, pos, ◌+ℤ◌, ◌≤ℤ◌}
use a_healthy_dns.Records.Time.{calculate_rrsig_lifetime}
use a_healthy_dns.Records.Time.Bounds.{rrsig_lifetime_covers}
use a_healthy_dns.Records.Dnssec.{timedelta, next_rrsig_key}

module _ (Key : Type 0) where
  ordered :
      (now : ℤ) (a b : ℤ)
      → pos 1 ≤ℤ a
      → a +ℤ pos 1 ≤ℤ b
      → (now +ℤ pos 1 ≤ℤ now +ℤ timedelta a) × (now +ℤ timedelta a +ℤ pos 1 ≤ℤ now +ℤ timedelta b)
  ordered now a b h k = ground arith

  -- For a positive interval a key holds from the time it is made, is due for renewal later, and
  -- expires after it is due; it signs with the one key that was given.
  pub next_rrsig_key_lem :
      (n : ℕ) (key : Key) (now : ℤ)
      → 0 < n
      → let made = next_rrsig_key Key (pos n) key now in
        (made.key.inception ≡ now)
        × (now +ℤ pos 1 ≤ℤ made.resign)
        × (made.resign +ℤ pos 1 ≤ℤ made.key.expiration)
        × (made.key.keys ≡ key ∷ [])
  unfolding next_rrsig_key
  next_rrsig_key_lem n key now h =
      let c = rrsig_lifetime_covers n h in
      let lifetime = calculate_rrsig_lifetime (pos n) in
      let o = ordered now lifetime.resign lifetime.expiration c.0 c.1 in (refl, o.0, o.1, refl)
