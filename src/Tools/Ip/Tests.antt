-- ===== src/Tools/Ip/Tests.antt =====
-- The address functions at concrete texts.
use a_healthy_dns.Base.{
  ◌≡◌, ◌↔◌, refl, true, [], ◌∷◌, ltb, ltb→lt, all_iff, arith, ok, raised, value_error,
}
use a_healthy_dns.Base.Text.{Text, codes, split, join}
use a_healthy_dns.Json.{str}
use a_healthy_dns.Unicode.{
  ascii_unicode, ascii_unicode-AsciiLaws, sample_unicode, sample_unicode-AsciiLaws, isdigit, int_of,
}
use a_healthy_dns.Tools.Ip.{is_valid_ip, valid_parts, normalize_ip}
use a_healthy_dns.Tools.Ip.Octet.{IsAscii, IsOctet, value}
use a_healthy_dns.Tools.Ip.Address.{IsDotted, dotted, normalize_ip_canonical, is_valid_ip_iff}
use a_healthy_dns.Tools.Ip.Unchecked.{led_by, is_valid_ip-non_ascii, is_valid_ip-raises}

abbrev padded : Text
padded = codes "010.0.0.255"

padded-IsAscii : IsAscii padded
padded-IsAscii =
    (all_iff (λ c. ltb c 128) (λ c. ((λ e. ltb→lt c 128 e), λ l. ground arith)) padded).0 refl

is_valid_ip_iff_example : (is_valid_ip ascii_unicode (str padded) ≡ ok (true, "")) ↔ IsDotted padded
is_valid_ip_iff_example =
    is_valid_ip_iff ascii_unicode ascii_unicode-AsciiLaws padded padded-IsAscii (omega arith)

padded_accepted : is_valid_ip ascii_unicode (str padded) ≡ ok (true, "")
unfolding is_valid_ip valid_parts isdigit int_of split
padded_accepted = refl

padded-IsDotted : IsDotted padded
padded-IsDotted = is_valid_ip_iff_example.0 padded_accepted

ten-IsOctet : IsOctet (codes "010")
unfolding value
ten-IsOctet = record {
  nonempty = λ e. cc;
  digits =
      ((omega arith, omega arith), ((omega arith, omega arith), ((omega arith, omega arith), tt)));
  bounded = omega arith;
}

zero-IsOctet : IsOctet (codes "0")
unfolding value
zero-IsOctet = record {
  nonempty = λ e. cc;
  digits = ((omega arith, omega arith), tt);
  bounded = omega arith;
}

normalize_ip_canonical_example :
    normalize_ip (join b'.' (codes "010" ∷ codes "0" ∷ codes "0" ∷ codes "010" ∷ []))
    ≡ dotted
        (value 0 (codes "010"))
        (value 0 (codes "0"))
        (value 0 (codes "0"))
        (value 0 (codes "010"))
normalize_ip_canonical_example =
    normalize_ip_canonical (codes "010") (codes "0") (codes "0") (codes "010")
      (ten-IsOctet, (zero-IsOctet, (zero-IsOctet, (ten-IsOctet, tt))))

is_valid_ip-non_ascii_example :
    (is_valid_ip sample_unicode (str (led_by 0x661)) ≡ ok (true, ""))
    × (normalize_ip (led_by 0x661) ≡ led_by 0x661)
is_valid_ip-non_ascii_example =
    is_valid_ip-non_ascii sample_unicode sample_unicode-AsciiLaws 0x661 (omega arith) refl 1
      (omega arith) refl

is_valid_ip-raises_example : is_valid_ip sample_unicode (str (led_by 0xb2)) ≡ raised value_error
is_valid_ip-raises_example =
    is_valid_ip-raises sample_unicode sample_unicode-AsciiLaws 0xb2 (omega arith) refl refl
