-- ===== src/Tools/Ip/Unchecked.antt =====
-- `str.isdigit` and `int` read more than ASCII digits.
use a_healthy_dns.Base.{
  ℕ, ◌≤◌, ◌≡◌, refl, true, some, none, List, [], ◌∷◌, arith, ok, raised, value_error,
}
use a_healthy_dns.Base.Text.{Text, codes, split, join, lstrip}
use a_healthy_dns.Json.{str}
use a_healthy_dns.Unicode.{Unicode, AsciiLaws, isdigit, int_of}
use a_healthy_dns.Tools.Ip.{valid_parts, is_valid_ip, normalize_ip}

-- An address whose first octet is one character.
abbrev pub led_by : ℕ → Text
led_by c = c ∷ codes ".0.0.1"

abbrev octets_led_by : ℕ → List Text
octets_led_by c = (c ∷ []) ∷ codes "0" ∷ codes "0" ∷ codes "1" ∷ []

split-led_by : (c : ℕ) → 128 ≤ c → split b'.' (led_by c) ≡ octets_led_by c
unfolding split
split-led_by c h = ground arith

lstrip_high : (c : ℕ) → 128 ≤ c → lstrip b'0' (c ∷ []) ≡ c ∷ []
unfolding lstrip
lstrip_high c h = ground arith

module _ (u : Unicode) (laws : AsciiLaws u) (c : ℕ) (high : 128 ≤ c)
    (digit : u.is_digit c ≡ true) where
  -- A character outside ASCII that `isdigit` takes and `int` reads as a digit makes an accepted
  -- address of the text that it begins before `.0.0.1`, and `normalize_ip` leaves that text as it
  -- is.
  pub is_valid_ip-non_ascii :
      (d : ℕ)
      → d ≤ 9
      → u.decimal c ≡ some d
      → (is_valid_ip u (str (led_by c)) ≡ ok (true, "")) × (normalize_ip (led_by c) ≡ led_by c)
  unfolding is_valid_ip valid_parts isdigit int_of normalize_ip join
  is_valid_ip-non_ascii d h e = (
    rw (split-led_by c high) (
        ground (
          arith,
          laws.ascii_is_digit b'0',
          laws.ascii_is_digit b'1',
          laws.ascii_decimal b'0',
          laws.ascii_decimal b'1',
        )),
    rw (split-led_by c high) (rw (lstrip_high c high) (unfold lstrip in refl)),
  )

  -- A character outside ASCII that `isdigit` takes and `int` refuses, such as a superscript, makes
  -- the validator raise `ValueError` on the text that it begins before `.0.0.1`.
  pub is_valid_ip-raises : u.decimal c ≡ none → is_valid_ip u (str (led_by c)) ≡ raised value_error
  unfolding is_valid_ip valid_parts isdigit int_of
  is_valid_ip-raises e = rw (split-led_by c high) (ground arith)
