-- ===== src/Unicode.antt =====
-- The Unicode database behind `str.isdigit` and `int`: a parameter of the model. `decimal c` is the
-- value that `int` reads at the character, and `none` where `int` refuses it.
use a_healthy_dns.Base.{
  ℕ, ◌+◌, ◌-◌, ◌*◌, ◌<◌, ◌≡◌, refl, Bool, true, false, ◌&&◌, ◌||◌, Option, none, some, [], ◌∷◌,
  arith, leb, ltb, ◌==◌, if◌then◌else◌, all, length, Result, ok, raised, value_error,
}
use a_healthy_dns.Base.Text.{Text}

pub record Unicode : Type 0 where
  pub is_digit : ℕ → Bool
  pub decimal : ℕ → Option ℕ

abbrev pub is_ascii_digit : ℕ → Bool
is_ascii_digit c = leb b'0' c && leb c b'9'

-- What the database says of ASCII: the digits are `0` to `9`, with their values.
pub record AsciiLaws (u : Unicode) : Type 0 where
  pub ascii_is_digit : (c : ℕ) → c < 128 → u.is_digit c ≡ is_ascii_digit c
  pub ascii_decimal : (c : ℕ) → is_ascii_digit c ≡ true → u.decimal c ≡ some (c - b'0')

-- `s.isdigit()`
unfoldable pub isdigit : Unicode → Text → Bool
isdigit u [] = false
isdigit u (c ∷ s) = all u.is_digit (c ∷ s)

-- `sys.get_int_max_str_digits()`
abbrev pub max_str_digits : ℕ
max_str_digits = 4300

unfoldable pub read_digits : Unicode → Text → ℕ → Result ℕ
read_digits u [] acc = ok acc
read_digits u (c ∷ s) acc = elim (u.decimal c) [
  | none ↦ raised value_error
  | some d ↦ read_digits u s (acc * 10 + d)
]

-- `int(s)` at a text that passes `isdigit`: no sign, space or underscore is left to read.
unfoldable pub int_of : Unicode → Text → Result ℕ
unfolding read_digits
int_of u s = if ltb max_str_digits (length s) then raised value_error else read_digits u s 0

-- A database that knows ASCII alone, and one with two entries more: the Arabic-Indic digit one,
-- which `int` reads as 1, and the superscript two, which `isdigit` takes and `int` refuses.
abbrev pub ascii_unicode : Unicode
ascii_unicode = record {
  is_digit = is_ascii_digit;
  decimal = λ c. if is_ascii_digit c then some (c - b'0') else none;
}

abbrev pub sample_unicode : Unicode
sample_unicode = record {
  is_digit = λ c. is_ascii_digit c || (c == 0x661 || c == 0xb2);
  decimal = λ c. if is_ascii_digit c then some (c - b'0') else if c == 0x661 then some 1 else none;
}

pub ascii_unicode-AsciiLaws : AsciiLaws ascii_unicode
ascii_unicode-AsciiLaws = record {
  ascii_is_digit = λ c h. refl;
  ascii_decimal = λ c h. ground arith;
}

pub sample_unicode-AsciiLaws : AsciiLaws sample_unicode
sample_unicode-AsciiLaws = record {
  ascii_is_digit = λ c h. ground arith;
  ascii_decimal = λ c h. ground arith;
}
