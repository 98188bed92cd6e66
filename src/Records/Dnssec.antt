-- ===== src/Records/Dnssec.antt =====
-- records/dnssec.py. Times are microseconds since the epoch.
pub mod Timing
mod Tests
use a_healthy_dns.Base.{List, [], ◌∷◌}
use a_healthy_dns.Base.Int.{ℤ, pos, ◌+ℤ◌, ◌*ℤ◌}
use a_healthy_dns.Records.Time.{calculate_dnskey_ttl, calculate_rrsig_lifetime}

-- `datetime.timedelta(seconds=…)`
abbrev pub timedelta : ℤ → ℤ
timedelta seconds = seconds *ℤ pos 1000000

-- The two types are the library's.
pub record ExtendedPrivateKey (PrivateKey Dnskey : Type 0) : Type 0 where
  pub private_key : PrivateKey
  pub dnskey : Dnskey

-- `Key` is the `ExtendedPrivateKey`.
module _ (Key : Type 0) where
  pub record RrSigKey : Type 0 where
    pub keys : List Key
    pub dnskey_ttl : ℤ
    pub inception : ℤ
    pub expiration : ℤ

  pub record ExtendedRrSigKey : Type 0 where
    pub key : RrSigKey
    pub resign : ℤ

  -- One `next` of `iter_rrsig_key(max_interval, ext_private_key)` at the time `now`
  unfoldable pub next_rrsig_key : ℤ → Key → ℤ → ExtendedRrSigKey
  next_rrsig_key max_interval ext_private_key now =
      let lifetime = calculate_rrsig_lifetime max_interval in
      record {
        key = record {
          keys = ext_private_key ∷ [];
          dnskey_ttl = calculate_dnskey_ttl max_interval;
          inception = now;
          expiration = now +ℤ timedelta lifetime.expiration;
        };
        resign = now +ℤ timedelta lifetime.resign;
      }
