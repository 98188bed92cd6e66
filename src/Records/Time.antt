-- ===== src/Records/Time.antt =====
-- records/time.py. Python's integers are unbounded, so an interval may be any integer.
pub mod Bounds
mod Tests
use a_healthy_dns.Base.{ℕ, ◌-◌, ◌^◌, if◌then◌else◌}
use a_healthy_dns.Base.Int.{ℤ, pos, ◌+ℤ◌, ◌*ℤ◌, leb_ℤ, ltb_ℤ}

pub record RrSigLifetime : Type 0 where
  pub resign : ℤ
  pub expiration : ℤ

-- `(1 << 31) - 1`
abbrev pub rfc8767_max_ttl : ℤ
rfc8767_max_ttl = pos 2147483647

clamp : ℤ → ℤ
clamp ttl =
    if leb_ℤ ttl (pos 0) then pos 0 else if ltb_ℤ rfc8767_max_ttl ttl then rfc8767_max_ttl else ttl

-- The decorator `_ttl_clamped`.
ttl_clamped : (ℤ → ℤ) → ℤ → ℤ
unfolding clamp
ttl_clamped ttl_calculator max_interval = clamp (ttl_calculator max_interval)

pub calculate_a_ttl : ℤ → ℤ
unfolding ttl_clamped
calculate_a_ttl = ttl_clamped (λ max_interval. max_interval *ℤ pos 2)

pub calculate_ns_ttl : ℤ → ℤ
unfolding ttl_clamped
calculate_ns_ttl = ttl_clamped (λ max_interval. calculate_a_ttl max_interval *ℤ pos 30)

pub calculate_soa_ttl : ℤ → ℤ
calculate_soa_ttl max_interval = calculate_ns_ttl max_interval

pub calculate_dnskey_ttl : ℤ → ℤ
unfolding ttl_clamped
calculate_dnskey_ttl = ttl_clamped (λ max_interval. calculate_a_ttl max_interval *ℤ pos 10)

pub calculate_soa_refresh : ℤ → ℤ
calculate_soa_refresh max_interval = calculate_dnskey_ttl max_interval

pub calculate_soa_retry : ℤ → ℤ
calculate_soa_retry max_interval = calculate_a_ttl max_interval

pub calculate_soa_expire : ℤ → ℤ
unfolding ttl_clamped
calculate_soa_expire = ttl_clamped (λ max_interval. calculate_soa_retry max_interval *ℤ pos 5)

pub calculate_soa_min_ttl : ℤ → ℤ
calculate_soa_min_ttl max_interval = calculate_a_ttl max_interval

pub calculate_rrsig_lifetime : ℤ → RrSigLifetime
calculate_rrsig_lifetime max_interval = record {
  resign = calculate_soa_refresh max_interval;
  expiration =
      pos 2 *ℤ calculate_soa_refresh max_interval
      +ℤ calculate_soa_expire max_interval
      +ℤ calculate_soa_retry max_interval;
}
