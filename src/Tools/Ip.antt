-- ===== src/Tools/Ip.antt =====
-- tools/is_valid_ip.py, tools/is_valid_port.py and tools/normalize_ip.py.
pub mod Octet
pub mod Address
pub mod Unchecked
pub mod Refusing
mod Tests
use a_healthy_dns.Base.{
  ℕ, Bool, true, false, ◌&&◌, not, List, [], ◌∷◌, String, leb, ◌==◌, if◌then◌else◌, length, map,
  Result, ok, ◌>>=◌,
}
use a_healthy_dns.Base.Int.{ℤ, pos, leb_ℤ}
use a_healthy_dns.Base.Text.{Text, split, join, lstrip}
use a_healthy_dns.Json.{Value, null, real, bool, int, str, list, dict, bool_value}
use a_healthy_dns.Unicode.{Unicode, isdigit, int_of}

-- `part.isdigit() and (0 <= int(part) <= 255)`
pub is_octet : Unicode → Text → Result Bool
is_octet u part = if isdigit u part then (do n ← int_of u part; ok (leb n 255)) else ok false

-- `all(… for part in parts)`, which stops at the first part that fails
pub all_octets : Unicode → List Text → Result Bool
all_octets u [] = ok true
all_octets u (part ∷ parts) =
    let rest = all_octets u parts in do good ← is_octet u part; if good then rest else ok false

unfoldable pub valid_parts : Unicode → List Text → Result (Bool × String)
unfolding all_octets is_octet
valid_parts u parts =
    if not (length parts == 4) then ok (false, "IP address must have 4 octets") else do
      good ← all_octets u parts
      if not good
          then ok (false, "Each octet must be a number between 0 and 255")
          else ok (true, "")

unfoldable pub is_valid_ip : Unicode → Value → Result (Bool × String)
is_valid_ip u (str ip) = valid_parts u (split b'.' ip)
is_valid_ip u _ = ok (false, "It must be a string")

port_in_range : ℤ → Bool × String
port_in_range port =
    if not (leb_ℤ (pos 1) port && leb_ℤ port (pos 65535))
    then (false, "Port must be between 1 and 65535")
    else (true, "")

unfoldable pub is_valid_port : Value → Bool × String
unfolding port_in_range
is_valid_port (int port) = port_in_range port
is_valid_port (bool b) = port_in_range (bool_value b)
is_valid_port _ = (false, "Port must be an integer")

abbrev pub or_zero : Text → Text
or_zero [] = b'0' ∷ []
or_zero (c ∷ s) = c ∷ s

-- `octet.lstrip("0") or "0"`
unfoldable pub normalize_octet : Text → Text
unfolding lstrip
normalize_octet octet = or_zero (lstrip b'0' octet)

unfoldable pub normalize_ip : Text → Text
unfolding normalize_octet
normalize_ip ip_address = join b'.' (map normalize_octet (split b'.' ip_address))
