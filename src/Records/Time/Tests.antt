-- ===== src/Records/Time/Tests.antt =====
-- The times at an interval of 30 seconds.
use a_healthy_dns.Base.{◌≡◌, arith}
use a_healthy_dns.Base.Int.{pos, ◌+ℤ◌, ◌≤ℤ◌}
use a_healthy_dns.Records.Time.{
  calculate_a_ttl, calculate_ns_ttl, calculate_soa_ttl, calculate_dnskey_ttl, calculate_soa_refresh,
  calculate_soa_retry, calculate_soa_expire, calculate_soa_min_ttl, calculate_rrsig_lifetime,
}
use a_healthy_dns.Records.Time.Bounds.{IsTtl, times-IsTtl, rrsig_lifetime_covers}

times-IsTtl_example :
    IsTtl (calculate_a_ttl (pos 30))
    × IsTtl (calculate_ns_ttl (pos 30))
    × IsTtl (calculate_soa_ttl (pos 30))
    × IsTtl (calculate_dnskey_ttl (pos 30))
    × IsTtl (calculate_soa_refresh (pos 30))
    × IsTtl (calculate_soa_retry (pos 30))
    × IsTtl (calculate_soa_expire (pos 30))
    × IsTtl (calculate_soa_min_ttl (pos 30))
times-IsTtl_example = times-IsTtl (pos 30)

rrsig_lifetime_covers_example :
    let lifetime = calculate_rrsig_lifetime (pos 30) in
    (pos 1 ≤ℤ lifetime.resign)
    × (lifetime.resign +ℤ pos 1 ≤ℤ lifetime.expiration)
    × (lifetime.expiration
        ≡ lifetime.resign
          +ℤ (calculate_soa_refresh (pos 30)
              +ℤ calculate_soa_expire (pos 30)
              +ℤ calculate_soa_retry (pos 30)))
rrsig_lifetime_covers_example = rrsig_lifetime_covers 30 (omega arith)
