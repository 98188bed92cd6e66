-- ===== src/Records/Soa.antt =====
-- records/soa_record.py and records/ns_record.py. The generators are functions of their state; the
-- readings of the clock are a list, one for each call of `time.time()`.
pub mod Serials
pub mod Sets
pub mod Printed
mod Tests
use a_healthy_dns.Base.{
  ℕ, zero, suc, ◌+◌, ◌/◌, ◌%◌, Bool, true, false, Option, none, some, List, [], ◌∷◌, ◌++◌, ◌==◌,
  if◌then◌else◌, ltb, Result, ok, raised, ◌>>=◌,
}
use a_healthy_dns.Base.Int.{ℤ, pos, negsuc}
use a_healthy_dns.Base.Text.{Text, codes, join}
use a_healthy_dns.Dns.Names.{Names}
use a_healthy_dns.Dns.Rdatasets.{Rdatasets, Rdataset, in_class, ns_type, soa_type}
use a_healthy_dns.Records.Time.{
  calculate_ns_ttl, calculate_soa_ttl, calculate_soa_refresh, calculate_soa_retry,
  calculate_soa_expire, calculate_soa_min_ttl,
}
use a_healthy_dns.Tools.Clock.{uint32_current_time}

-- The digits of a number before those given; one round for each digit.
show_from : ℕ → ℕ → Text → Text
show_from zero n digits = digits
show_from (suc fuel) n digits = elim (ltb n 10) [
  | true ↦ (b'0' + n) ∷ digits
  | false ↦ show_from fuel (n / 10) ((b'0' + n % 10) ∷ digits)
]

-- `str(n)` on an integer
unfoldable pub show_int : ℤ → Text
unfolding show_from
show_int (pos n) = show_from (suc n) n []
show_int (negsuc n) = b'-' ∷ show_from (suc (suc n)) (suc n) []

-- One `next` of `_iter_soa_serial`: the serial and the readings that are left, or nothing where the
-- readings run out while it waits.
unfoldable pub next_serial : ℕ → List ℕ → Result (Option (ℕ × List ℕ))
next_serial last_serial [] = ok none
next_serial last_serial (reading ∷ readings) =
    let waited = next_serial last_serial readings in
    do
      current_serial ← uint32_current_time reading
      if current_serial == last_serial then waited else ok (some (current_serial, readings))

module _ (names : Names) (rdatasets : Rdatasets) where
  open names use {Name, to_text}
  open rdatasets use {Rdata, from_text}

  unfoldable pub make_ns_record : ℤ → List Text → Result (Rdataset Rdata)
  make_ns_record max_interval name_servers =
      from_text in_class ns_type (calculate_ns_ttl max_interval) name_servers

  -- What `iter_soa_record` keeps between two records: its arguments and the last serial.
  pub record SoaIterator : Type 0 where
    pub max_interval : ℤ
    pub origin_name : Name
    pub primary_ns : Text
    pub last_serial : ℕ

  -- `iter_soa_record(…)` before the first record
  unfoldable pub iter_soa_record : ℤ → Name → Text → SoaIterator
  iter_soa_record max_interval origin_name primary_ns = record {
    max_interval = max_interval;
    origin_name = origin_name;
    primary_ns = primary_ns;
    last_serial = 0;
  }

  unfoldable pub admin_info : SoaIterator → ℕ → Text
  admin_info self serial = join b' ' (
      self.primary_ns
      ∷ (codes "hostmaster." ++ to_text self.origin_name)
      ∷ show_int (pos serial)
      ∷ show_int (calculate_soa_refresh self.max_interval)
      ∷ show_int (calculate_soa_retry self.max_interval)
      ∷ show_int (calculate_soa_expire self.max_interval)
      ∷ show_int (calculate_soa_min_ttl self.max_interval)
      ∷ [])

  soa_rdataset :
      SoaIterator → Option (ℕ × List ℕ) → Result (Option (Rdataset Rdata × SoaIterator × List ℕ))
  soa_rdataset self none = ok none
  soa_rdataset self (some (serial, readings)) = do
    rdataset ←
        from_text in_class soa_type (calculate_soa_ttl self.max_interval)
          (admin_info self serial ∷ [])
    ok (some (rdataset, record self { last_serial = serial }, readings))

  -- One `next` of `iter_soa_record`
  unfoldable pub next_soa_record :
      SoaIterator → List ℕ → Result (Option (Rdataset Rdata × SoaIterator × List ℕ))
  unfolding soa_rdataset
  next_soa_record self readings = do
    serial ← next_serial self.last_serial readings
    soa_rdataset self serial
