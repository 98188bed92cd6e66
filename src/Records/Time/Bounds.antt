-- ===== src/Records/Time/Bounds.antt =====
-- Ranges, order and exact values of the calculated times.
use Prim.Native.Nat.{min}
use a_healthy_dns.Base.{ℕ, ◌+◌, ◌*◌, ◌<◌, ◌≡◌, ap, ◌∙◌, arith}
use a_healthy_dns.Base.Int.{ℤ, pos, ◌+ℤ◌, ◌*ℤ◌, ◌≤ℤ◌}
use a_healthy_dns.Records.Time.{
  calculate_a_ttl, calculate_ns_ttl, calculate_soa_ttl, calculate_dnskey_ttl, calculate_soa_refresh,
  calculate_soa_retry, calculate_soa_expire, calculate_soa_min_ttl, calculate_rrsig_lifetime,
  rfc8767_max_ttl, clamp,
}

abbrev pub max_ttl : ℕ
max_ttl = 2147483647

clamp_pos : (n : ℕ) → clamp (pos n) ≡ pos (min n max_ttl)
unfolding clamp
clamp_pos n = ground arith

mul_pos : (n k : ℕ) → pos n *ℤ pos k ≡ pos (n * k)
mul_pos n k = ground arith

-- The times in closed form, for an interval of `n` seconds.
pub a_ttl-pos : (n : ℕ) → calculate_a_ttl (pos n) ≡ pos (min (n * 2) max_ttl)
unfolding calculate_a_ttl
a_ttl-pos n = ap clamp (mul_pos n 2) ∙ clamp_pos (n * 2)

scaled :
    (n k : ℕ)
    → clamp (calculate_a_ttl (pos n) *ℤ pos k) ≡ pos (min (min (n * 2) max_ttl * k) max_ttl)
scaled n k =
    ap (λ t. clamp (t *ℤ pos k)) (a_ttl-pos n)
    ∙ ap clamp (mul_pos (min (n * 2) max_ttl) k)
    ∙ clamp_pos (min (n * 2) max_ttl * k)

pub ns_ttl-pos : (n : ℕ) → calculate_ns_ttl (pos n) ≡ pos (min (n * 60) max_ttl)
unfolding calculate_ns_ttl
ns_ttl-pos n = scaled n 30 ∙ ap pos (omega arith)

pub dnskey_ttl-pos : (n : ℕ) → calculate_dnskey_ttl (pos n) ≡ pos (min (n * 20) max_ttl)
unfolding calculate_dnskey_ttl
dnskey_ttl-pos n = scaled n 10 ∙ ap pos (omega arith)

pub soa_expire-pos : (n : ℕ) → calculate_soa_expire (pos n) ≡ pos (min (n * 10) max_ttl)
unfolding calculate_soa_expire calculate_soa_retry
soa_expire-pos n = scaled n 5 ∙ ap pos (omega arith)

add_pos : (n k : ℕ) → pos n +ℤ pos k ≡ pos (n + k)
add_pos n k = ground arith

pub rrsig_lifetime-pos :
    (n : ℕ)
    → (calculate_rrsig_lifetime (pos n)).expiration
      ≡ pos (2 * min (n * 20) max_ttl + min (n * 10) max_ttl + min (n * 2) max_ttl)
unfolding calculate_rrsig_lifetime calculate_soa_refresh calculate_soa_retry
rrsig_lifetime-pos n = rw (
  dnskey_ttl-pos n,
  soa_expire-pos n,
  a_ttl-pos n,
  mul_pos 2 (min (n * 20) max_ttl),
  add_pos (2 * min (n * 20) max_ttl) (min (n * 10) max_ttl),
  add_pos (2 * min (n * 20) max_ttl + min (n * 10) max_ttl) (min (n * 2) max_ttl),
)

-- A time that a DNS message can carry.
abbrev pub IsTtl : ℤ → Type 0
IsTtl t = (pos 0 ≤ℤ t) × (t ≤ℤ rfc8767_max_ttl)

clamp-IsTtl : (t : ℤ) → IsTtl (clamp t)
unfolding clamp
clamp-IsTtl t = ground arith

-- Whatever the interval, every time that goes into a record lies between 0 and 2 ^ 31 - 1.
pub times-IsTtl :
    (i : ℤ)
    → IsTtl (calculate_a_ttl i)
      × IsTtl (calculate_ns_ttl i)
      × IsTtl (calculate_soa_ttl i)
      × IsTtl (calculate_dnskey_ttl i)
      × IsTtl (calculate_soa_refresh i)
      × IsTtl (calculate_soa_retry i)
      × IsTtl (calculate_soa_expire i)
      × IsTtl (calculate_soa_min_ttl i)
unfolding calculate_soa_ttl calculate_soa_refresh calculate_soa_retry calculate_soa_min_ttl
    calculate_a_ttl calculate_ns_ttl calculate_dnskey_ttl calculate_soa_expire
times-IsTtl i = (
  clamp-IsTtl (i *ℤ pos 2),
  clamp-IsTtl (calculate_a_ttl i *ℤ pos 30),
  clamp-IsTtl (calculate_a_ttl i *ℤ pos 30),
  clamp-IsTtl (calculate_a_ttl i *ℤ pos 10),
  clamp-IsTtl (calculate_a_ttl i *ℤ pos 10),
  clamp-IsTtl (i *ℤ pos 2),
  clamp-IsTtl (calculate_soa_retry i *ℤ pos 5),
  clamp-IsTtl (i *ℤ pos 2),
)

-- For an interval of `n` seconds the times are 2, 60, 20 and 10 times `n`, each cut off at
-- 2 ^ 31 - 1: the A, NS and DNSKEY times and the SOA expiry, with the SOA fields that copy them.
pub ttl_values :
    (n : ℕ)
    → (calculate_a_ttl (pos n) ≡ pos (min (n * 2) max_ttl))
      × (calculate_ns_ttl (pos n) ≡ pos (min (n * 60) max_ttl))
      × (calculate_soa_ttl (pos n) ≡ pos (min (n * 60) max_ttl))
      × (calculate_dnskey_ttl (pos n) ≡ pos (min (n * 20) max_ttl))
      × (calculate_soa_refresh (pos n) ≡ pos (min (n * 20) max_ttl))
      × (calculate_soa_retry (pos n) ≡ pos (min (n * 2) max_ttl))
      × (calculate_soa_expire (pos n) ≡ pos (min (n * 10) max_ttl))
      × (calculate_soa_min_ttl (pos n) ≡ pos (min (n * 2) max_ttl))
unfolding calculate_soa_ttl calculate_soa_refresh calculate_soa_retry calculate_soa_min_ttl
ttl_values n = (
  a_ttl-pos n,
  ns_ttl-pos n,
  ns_ttl-pos n,
  dnskey_ttl-pos n,
  dnskey_ttl-pos n,
  a_ttl-pos n,
  soa_expire-pos n,
  a_ttl-pos n,
)

-- For a positive interval a signature is renewed after it is made and before it expires, and when
-- it is renewed it has the refresh, expire and retry times of the zone still to run.
pub rrsig_lifetime_covers :
    (n : ℕ)
    → 0 < n
    → let lifetime = calculate_rrsig_lifetime (pos n) in
      (pos 1 ≤ℤ lifetime.resign)
      × (lifetime.resign +ℤ pos 1 ≤ℤ lifetime.expiration)
      × (lifetime.expiration
          ≡ lifetime.resign
            +ℤ (calculate_soa_refresh (pos n)
                +ℤ calculate_soa_expire (pos n)
                +ℤ calculate_soa_retry (pos n)))
unfolding calculate_rrsig_lifetime calculate_soa_refresh calculate_soa_retry
rrsig_lifetime_covers n h = rw (dnskey_ttl-pos n, soa_expire-pos n, a_ttl-pos n) (ground arith)
