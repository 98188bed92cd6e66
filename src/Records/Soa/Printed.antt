-- ===== src/Records/Soa/Printed.antt =====
-- The text of the SOA record, read back.
use a_healthy_dns.Base.{
  ℕ, zero, suc, ◌+◌, ◌-◌, ◌*◌, ◌/◌, ◌%◌, ◌<◌, ◌≡◌, ◌≢◌, refl, sym, ap, subst, ◌∙◌, inl, inr, List,
  [], ◌∷◌, ◌++◌, map, arith, ltb, ◌==◌, if◌then◌else◌, Bool-cases, All, All-append,
}
use a_healthy_dns.Base.Int.{ℤ, pos, negsuc}
use a_healthy_dns.Base.Text.{Text, codes, split, Lacks}
use a_healthy_dns.Base.Text.Parts.{split-join}
use a_healthy_dns.Dns.Names.{Names}
use a_healthy_dns.Dns.Rdatasets.{Rdatasets}
use a_healthy_dns.Tools.Ip.Octet.{IsDigits, value}
use a_healthy_dns.Records.Time.{
  calculate_soa_refresh, calculate_soa_retry, calculate_soa_expire, calculate_soa_min_ttl,
}
use a_healthy_dns.Records.Soa.{show_from, show_int, SoaIterator, admin_info}

show_from-IsDigits :
    (fuel n : ℕ) (digits : Text) → n < fuel → IsDigits digits → IsDigits (show_from fuel n digits)
unfolding show_from
show_from-IsDigits zero n digits l h = absurd (omega arith)
show_from-IsDigits (suc fuel) n digits l h = elim (Bool-cases (ltb n 10)) [
  | inl e ↦
      let same : show_from (suc fuel) n digits ≡ (b'0' + n) ∷ digits = ground arith in
      subst IsDigits (sym same) (ground arith, h)
  | inr e ↦
      let same : show_from (suc fuel) n digits
          ≡ show_from fuel (n / 10) ((b'0' + n % 10) ∷ digits) =
        ground arith in
      subst IsDigits (sym same) (
        show_from-IsDigits fuel (n / 10) ((b'0' + n % 10) ∷ digits) (ground arith)
          (ground arith, h))
]

value-show_from :
    (fuel n : ℕ) (digits : Text) → n < fuel → value 0 (show_from fuel n digits) ≡ value n digits
unfolding show_from value
value-show_from zero n digits l = absurd (omega arith)
value-show_from (suc fuel) n digits l = elim (Bool-cases (ltb n 10)) [
  | inl e ↦ ground arith
  | inr e ↦
      let same : show_from (suc fuel) n digits
          ≡ show_from fuel (n / 10) ((b'0' + n % 10) ∷ digits) =
        ground arith in
      let ten : n / 10 * 10 + (b'0' + n % 10 - b'0') ≡ n = ground arith in
      ap (value 0) same
      ∙ value-show_from fuel (n / 10) ((b'0' + n % 10) ∷ digits) (ground arith)
      ∙ ap (λ k. value k digits) ten
]

below_zero : ℕ → ℤ
below_zero zero = pos 0
below_zero (suc n) = negsuc n

-- The number that a text of digits writes, with a sign or without.
pub read_int : Text → ℤ
unfolding below_zero
read_int [] = pos 0
read_int (c ∷ s) = if c == b'-' then below_zero (value 0 s) else pos (value 0 (c ∷ s))

unsigned : (t : Text) → IsDigits t → read_int t ≡ pos (value 0 t)
unfolding read_int value
unsigned [] h = refl
unsigned (c ∷ s) h = ground arith

read_int-show_int : (z : ℤ) → read_int (show_int z) ≡ z
unfolding show_int read_int below_zero value
read_int-show_int (pos n) =
    unsigned (show_from (suc n) n []) (show_from-IsDigits (suc n) n [] (omega arith) tt)
    ∙ ap pos (value-show_from (suc n) n [] (omega arith))
read_int-show_int (negsuc n) =
    ap below_zero (value-show_from (suc (suc n)) (suc n) [] (omega arith))

IsDigits-no_space : (t : Text) → IsDigits t → Lacks b' ' t
IsDigits-no_space [] h = tt
IsDigits-no_space (c ∷ s) h = (omega arith, IsDigits-no_space s h.1)

show_int-no_space : (z : ℤ) → Lacks b' ' (show_int z)
unfolding show_int
show_int-no_space (pos n) =
    IsDigits-no_space (show_from (suc n) n []) (show_from-IsDigits (suc n) n [] (omega arith) tt)
show_int-no_space (negsuc n) = (
  omega arith,
  IsDigits-no_space (show_from (suc (suc n)) (suc n) [])
      (show_from-IsDigits (suc (suc n)) (suc n) [] (omega arith) tt),
)

module _ (names : Names) (rdatasets : Rdatasets) (self : SoaIterator names rdatasets)
    (serial : ℕ) where
  -- The numbers of the SOA record, in its order.
  abbrev pub soa_numbers : List ℤ
  soa_numbers =
      pos serial
      ∷ calculate_soa_refresh self.max_interval
      ∷ calculate_soa_retry self.max_interval
      ∷ calculate_soa_expire self.max_interval
      ∷ calculate_soa_min_ttl self.max_interval
      ∷ []

  printed_no_space : (zs : List ℤ) → All (Lacks b' ') (map show_int zs)
  printed_no_space [] = tt
  printed_no_space (z ∷ zs) = (show_int-no_space z, printed_no_space zs)

  read_printed : (zs : List ℤ) → map read_int (map show_int zs) ≡ zs
  read_printed [] = refl
  read_printed (z ∷ zs) = rw (read_int-show_int z, read_printed zs) refl

  -- For a primary server and an origin without a space in their texts, the text of the SOA record
  -- splits at its spaces into the primary server, the mailbox below the origin, and five texts, which
  -- are read back as the serial and the refresh, retry, expire and minimum times.
  pub admin_info_reads_back :
      Lacks b' ' self.primary_ns
      → Lacks b' ' (names.to_text self.origin_name)
      → (printed : List Text) × (split b' ' (admin_info names rdatasets self serial)
          ≡ self.primary_ns ∷ (codes "hostmaster." ++ names.to_text self.origin_name) ∷ printed)
        × (map read_int printed ≡ soa_numbers)
  unfolding admin_info
  admin_info_reads_back primary origin =
      let mailbox =
        All-append (λ c. c ≢ b' ') (codes "hostmaster.") (names.to_text self.origin_name)
          (ground arith) origin in
      (
        map show_int soa_numbers,
        split-join b' '
            (self.primary_ns
              ∷ (codes "hostmaster." ++ names.to_text self.origin_name)
              ∷ map show_int soa_numbers)
            (λ e. cc) (primary, (mailbox, printed_no_space soa_numbers)),
        read_printed soa_numbers,
      )
