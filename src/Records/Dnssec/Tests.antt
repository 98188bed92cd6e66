-- ===== src/Records/Dnssec/Tests.antt =====
-- A key for an interval of 30 seconds, made at the epoch.
use a_healthy_dns.Base.{ℕ, ◌≡◌, [], ◌∷◌, arith}
use a_healthy_dns.Base.Int.{pos, ◌+ℤ◌, ◌≤ℤ◌}
use a_healthy_dns.Records.Dnssec.{next_rrsig_key}
use a_healthy_dns.Records.Dnssec.Timing.{next_rrsig_key_lem}

next_rrsig_key_lem_example :
    let made = next_rrsig_key ℕ (pos 30) 7 (pos 0) in
    (made.key.inception ≡ pos 0)
    × (pos 0 +ℤ pos 1 ≤ℤ made.resign)
    × (made.resign +ℤ pos 1 ≤ℤ made.key.expiration)
    × (made.key.keys ≡ 7 ∷ [])
next_rrsig_key_lem_example = next_rrsig_key_lem ℕ 30 7 (pos 0) (omega arith)
