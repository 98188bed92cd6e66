-- ===== src/Records/Soa/Serials.antt =====
-- The serials of successive SOA records.
use a_healthy_dns.Base.{
  ℕ, ◌≤◌, ◌<◌, ◌≡◌, ◌≢◌, ◌⊎◌, inl, inr, true, some, List, [], ◌∷◌, arith, ◌==◌, Bool-cases, subst,
  All, ok, raised, overflow_error,
}
use a_healthy_dns.Tools.Clock.{uint32_current_time, max_uint32}
use a_healthy_dns.Records.Soa.{next_serial}

-- Readings of a clock that is not set back, from a time on.
abbrev pub IsRising : ℕ → List ℕ → Type 0
IsRising from [] = Unit
IsRising from (reading ∷ readings) = (from ≤ reading) × IsRising reading readings

-- On a clock that is not set back, a serial is greater than the last one and fits into 32 bits;
-- the readings that are left go on from it.
pub next_serial_grows :
    (last_serial serial : ℕ) (readings rest : List ℕ)
    → IsRising last_serial readings
    → next_serial last_serial readings ≡ ok (some (serial, rest))
    → (last_serial < serial) × (serial ≤ max_uint32) × IsRising serial rest
unfolding next_serial uint32_current_time
next_serial_grows last serial [] rest r e = cc
next_serial_grows last serial (t ∷ ts) rest r e = elim (Bool-cases (t == last)) [
  | inl same ↦
      let risen : IsRising last ts = subst (λ x. IsRising x ts) (same_time same) r.1 in
      next_serial_grows last serial ts rest risen (ground arith)
  | inr new ↦
      let s : t ≡ serial = ground arith in
      let k : ts ≡ rest = ground arith in
      (
        subst (λ x. last < x) s (ground arith),
        subst (λ x. x ≤ max_uint32) s (ground arith),
        subst (IsRising serial) k (subst (λ x. IsRising x ts) s r.1),
      )
]
  where
    same_time : (t == last) ≡ true → t ≡ last
    same_time h = ground arith

-- The readings fit into 32 bits.
abbrev pub Fits : List ℕ → Type 0
Fits = All (λ reading. reading ≤ max_uint32)

-- Some reading is another than the last serial.
abbrev pub Differs : ℕ → List ℕ → Type 0
Differs last [] = ⊥
Differs last (reading ∷ readings) = (reading ≢ last) ⊎ Differs last readings

-- The wait ends: where the readings fit into 32 bits and one of them differs from the last serial,
-- a serial is found.
pub next_serial_returns :
    (last_serial : ℕ) (readings : List ℕ)
    → Fits readings
    → Differs last_serial readings
    → (serial : ℕ) × (rest : List ℕ) × (next_serial last_serial readings ≡ ok (some (serial, rest)))
unfolding next_serial uint32_current_time
next_serial_returns last [] f d = absurd d
next_serial_returns last (t ∷ ts) f d = elim (Bool-cases (t == last)) [
  | inl same ↦
      let (serial, rest, e) = next_serial_returns last ts f.1 (later same d) in
      (serial, rest, ground arith)
  | inr new ↦ (t, ts, ground arith)
]
  where
    later : (t == last) ≡ true → (t ≢ last) ⊎ Differs last ts → Differs last ts
    later h (inl n) = absurd (n (ground arith))
    later h (inr k) = k

-- Where the first reading of the clock does not fit into 32 bits, the next serial is an
-- `OverflowError`.
pub next_serial_overflows :
    (last_serial reading : ℕ) (readings : List ℕ)
    → max_uint32 < reading
    → next_serial last_serial (reading ∷ readings) ≡ raised overflow_error
unfolding next_serial uint32_current_time
next_serial_overflows last reading readings h = ground arith
