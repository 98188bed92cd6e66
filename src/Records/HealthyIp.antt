-- ===== src/Records/HealthyIp.antt =====
-- records/a_healthy_ip.py.
pub mod Status
mod Tests
use a_healthy_dns.Base.{
  ℕ, Bool, true, false, not, ◌&&◌, Option, none, some, ◌==◌, if◌then◌else◌, Result, ok, raised,
  value_error, ◌>>=◌, ◌>>◌, raise_if, bool_eq,
}
use a_healthy_dns.Base.Int.{ℤ, pos, negsuc}
use a_healthy_dns.Base.Text.{Text, text_eq}
use a_healthy_dns.Json.{Value, null, bool, int, str, bool_value, text_of}
use a_healthy_dns.Unicode.{Unicode}
use a_healthy_dns.Tools.Ip.{is_valid_ip, is_valid_port, normalize_ip}

pub record AHealthyIp : Type 0 where
  pub ip : Text
  pub health_port : Option ℤ
  pub is_healthy : Bool

-- `if health_port is not None: …`
check_port : Value → Result (Unit {0})
check_port null = ok tt
check_port health_port = raise_if (not (is_valid_port health_port).0) value_error

-- The port that is kept. `True` passes for an integer, and is equal to 1.
abbrev pub stored_port : Value → Option ℤ
stored_port (int port) = some port
stored_port (bool b) = some (bool_value b)
stored_port _ = none

-- `AHealthyIp.__init__`
unfoldable pub make_healthy_ip : Unicode → Value → Value → Bool → Result AHealthyIp
unfolding check_port
make_healthy_ip u ip health_port is_healthy = do
  checked ← is_valid_ip u ip
  raise_if (not checked.0) value_error
  check_port health_port
  ok (record {
    ip = normalize_ip (text_of ip);
    health_port = stored_port health_port;
    is_healthy = is_healthy;
  })

abbrev pub int_eq : ℤ → ℤ → Bool
int_eq (pos m) (pos n) = m == n
int_eq (pos m) (negsuc n) = false
int_eq (negsuc m) (pos n) = false
int_eq (negsuc m) (negsuc n) = m == n

abbrev pub port_eq : Option ℤ → Option ℤ → Bool
port_eq none none = true
port_eq none (some q) = false
port_eq (some p) none = false
port_eq (some p) (some q) = int_eq p q

-- `AHealthyIp.__eq__`
unfoldable pub healthy_ip_eq : AHealthyIp → AHealthyIp → Bool
healthy_ip_eq self other =
    text_eq self.ip other.ip
    && (port_eq self.health_port other.health_port && bool_eq self.is_healthy other.is_healthy)

-- The port as it is passed back to the constructor.
abbrev pub port_value : Option ℤ → Value
port_value none = null
port_value (some port) = int port

unfoldable pub updated_status : Unicode → AHealthyIp → Bool → Result AHealthyIp
updated_status u self is_healthy =
    if bool_eq is_healthy self.is_healthy
    then ok self
    else make_healthy_ip u (str self.ip) (port_value self.health_port) is_healthy
