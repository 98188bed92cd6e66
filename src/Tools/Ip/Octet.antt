-- ===== src/Tools/Ip/Octet.antt =====
-- One octet: `is_octet` against its meaning, and its normal form.
use a_healthy_dns.Base.{
  ℕ, ◌+◌, ◌-◌, ◌*◌, ◌/◌, ◌%◌, ◌≤◌, ◌<◌, ◌≡◌, ◌≢◌, ◌↔◌, ◌⊎◌, refl, inl, inr, true, [], ◌∷◌, arith,
  ltb, ◌==◌, if◌then◌else◌, Bool-cases, all, length, All, ok,
}
use a_healthy_dns.Base.Text.{Text, lstrip}
use a_healthy_dns.Unicode.{Unicode, AsciiLaws, isdigit, int_of, read_digits, max_str_digits}
use a_healthy_dns.Tools.Ip.{is_octet, normalize_octet}

abbrev pub IsAscii : Text → Type 0
IsAscii = All (λ c. c < 128)

abbrev pub IsDigits : Text → Type 0
IsDigits = All (λ c. (b'0' ≤ c) × (c ≤ b'9'))

-- The number that a text of digits writes, behind the digits already read.
unfoldable pub value : ℕ → Text → ℕ
value acc [] = acc
value acc (c ∷ s) = value (acc * 10 + (c - b'0')) s

-- An octet in decimal, leading zeros allowed.
pub record IsOctet (s : Text) : Type 0 where
  pub nonempty : s ≢ []
  pub digits : IsDigits s
  pub bounded : value 0 s ≤ 255

module _ (u : Unicode) (laws : AsciiLaws u) where
  read_digits-value : (s : Text) (acc : ℕ) → IsDigits s → read_digits u s acc ≡ ok (value acc s)
  unfolding read_digits value
  read_digits-value [] acc h = refl
  read_digits-value (c ∷ s) acc h =
      ground (arith, laws.ascii_decimal c, read_digits-value s (acc * 10 + (c - b'0')) h.1)

  all-IsDigits_iff : (s : Text) → IsAscii s → (all u.is_digit s ≡ true) ↔ IsDigits s
  all-IsDigits_iff [] h = (λ e. tt, λ k. refl)
  all-IsDigits_iff (c ∷ s) h =
      let e = laws.ascii_is_digit c h.0 in
      let ih = all-IsDigits_iff s h.1 in
      (λ k. ground (arith, e, ih.0), λ k. ground (arith, e, ih.1))

  pub is_octet_of :
      (s : Text) → IsAscii s → length s ≤ max_str_digits → IsOctet s → is_octet u s ≡ ok true
  unfolding is_octet isdigit int_of
  is_octet_of [] a l o = absurd (o.nonempty refl)
  is_octet_of (c ∷ s) a l o =
      ground (arith, (all-IsDigits_iff (c ∷ s) a).1 o.digits, read_digits-value (c ∷ s) 0 o.digits)

  pub of_is_octet : (s : Text) → IsAscii s → is_octet u s ≡ ok true → IsOctet s
  unfolding is_octet isdigit int_of
  of_is_octet [] a e = cc
  of_is_octet (c ∷ s) a e = record {
    nonempty = λ n. cc;
    digits = d;
    bounded = ground (arith, read_digits-value (c ∷ s) 0 d);
  }
    where
      d : IsDigits (c ∷ s)
      d = (all-IsDigits_iff (c ∷ s) a).0 (ground arith)

value_ge : (acc : ℕ) (s : Text) → acc ≤ value acc s
unfolding value
value_ge acc [] = omega arith
value_ge acc (c ∷ s) = omega (arith, value_ge (acc * 10 + (c - b'0')) s)

-- A number up to 255 in decimal, without leading zeros.
unfoldable pub show_octet : ℕ → Text
show_octet n =
    if ltb n 10
    then (b'0' + n) ∷ []
    else if ltb n 100
    then (b'0' + n / 10) ∷ (b'0' + n % 10) ∷ []
    else (b'0' + n / 100) ∷ (b'0' + n / 10 % 10) ∷ (b'0' + n % 10) ∷ []

show_octet-value :
    (c : ℕ) (s : Text)
    → c ≢ b'0'
    → IsDigits (c ∷ s)
    → value 0 (c ∷ s) ≤ 255
    → c ∷ s ≡ show_octet (value 0 (c ∷ s))
unfolding show_octet value
show_octet-value c [] n d b = ground arith
show_octet-value c (d ∷ []) n ds b = ground arith
show_octet-value c (d ∷ (e ∷ [])) n ds b = ground arith
show_octet-value c (d ∷ (e ∷ (f ∷ s))) n ds b = absurd (
    omega (
      arith,
      value_ge ((((0 * 10 + (c - b'0')) * 10 + (d - b'0')) * 10 + (e - b'0')) * 10 + (f - b'0')) s,
    ))

-- What `lstrip("0")` leaves: nothing, or a text with another first character.
lstrip_cases :
    (s : Text)
    → (lstrip b'0' s ≡ []) ⊎ ((c : ℕ) × (t : Text) × (lstrip b'0' s ≡ c ∷ t) × (c ≢ b'0'))
unfolding lstrip
lstrip_cases [] = inl refl
lstrip_cases (c ∷ s) = elim (Bool-cases (c == b'0')) [
  | inl e ↦ rw (e, lstrip) (lstrip_cases s)
  | inr e ↦ inr (c, s, rw (e, lstrip), ground arith)
]

value-lstrip : (s : Text) → value 0 (lstrip b'0' s) ≡ value 0 s
unfolding lstrip value
value-lstrip [] = refl
value-lstrip (c ∷ s) = ground (arith, value-lstrip s)

lstrip-IsDigits : (s : Text) → IsDigits s → IsDigits (lstrip b'0' s)
unfolding lstrip
lstrip-IsDigits [] h = tt
lstrip-IsDigits (c ∷ s) h = ground (arith, lstrip-IsDigits s h.1)

-- The normal form of an octet writes its value.
pub normalize_octet_lem : (s : Text) → IsOctet s → normalize_octet s ≡ show_octet (value 0 s)
unfolding normalize_octet
normalize_octet_lem s o = elim (lstrip_cases s) [
  | inl e ↦ rw (e, ← value-lstrip s) (rw e (unfold show_octet value in refl))
  | inr (c, t, e, n) ↦
      rw (e, ← value-lstrip s)
        (rw e (
          show_octet-value c t n (rw e at (lstrip-IsDigits s o.digits))
            (rw e at (rw (← value-lstrip s) at o.bounded))))
]

-- What is written for a number up to 255 is an octet of that value.
pub show_octet-IsOctet : (n : ℕ) → n ≤ 255 → IsOctet (show_octet n)
unfolding show_octet value
show_octet-IsOctet n h = ground arith

pub value-show_octet : (n : ℕ) → n ≤ 255 → value 0 (show_octet n) ≡ n
unfolding show_octet value
value-show_octet n h = ground arith

pub show_octet-short : (n : ℕ) → n ≤ 255 → IsAscii (show_octet n) × (length (show_octet n) ≤ 3)
unfolding show_octet
show_octet-short n h = ground arith
