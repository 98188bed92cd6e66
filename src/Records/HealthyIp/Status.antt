-- ===== src/Records/HealthyIp/Status.antt =====
-- What construction guarantees, and that a change of status cannot fail.
use a_healthy_dns.Base.{
  ◌≡◌, refl, sym, subst, Bool, true, Option, none, some, arith, ok, >>=-eq-ok, MayRefuse,
  >>=-MayRefuse, >>-MayRefuse, raise_if, raise_if-MayRefuse, not, value_error,
}
use a_healthy_dns.Base.Int.{ℤ, pos, ◌≤ℤ◌}
use a_healthy_dns.Base.Text.{Text, text_eq→eq, text_eq_refl}
use a_healthy_dns.Json.{Value, null, bool, int, str}
use a_healthy_dns.Unicode.{Unicode, AsciiLaws}
use a_healthy_dns.Tools.Ip.{is_valid_ip, is_valid_port, normalize_ip}
use a_healthy_dns.Tools.Ip.Refusing.{is_valid_ip-MayRefuse}
use a_healthy_dns.Tools.Ip.Octet.{IsAscii}
use a_healthy_dns.Tools.Ip.Address.{
  IsCanonical, IsDotted-of_is_valid_ip, is_valid_ip_message, normalize_ip-IsCanonical,
  normalize_ip-canonical_id, is_valid_ip-canonical,
}
use a_healthy_dns.Records.HealthyIp.{
  AHealthyIp, check_port, stored_port, make_healthy_ip, healthy_ip_eq, port_value, updated_status,
}

-- No port, or one from 1 to 65535.
abbrev pub IsPort : Option ℤ → Type 0
IsPort none = Unit
IsPort (some port) = (pos 1 ≤ℤ port) × (port ≤ℤ pos 65535)

-- An address in normal form, with a usable port.
pub record IsWellFormed (x : AHealthyIp) : Type 0 where
  pub canonical : IsCanonical x.ip
  pub port : IsPort x.health_port

is_valid_port-IsPort : (v : Value) → (is_valid_port v).0 ≡ true → IsPort (stored_port v)
unfolding is_valid_port
is_valid_port-IsPort (int p) h = ground arith
is_valid_port-IsPort (bool b) h = ground arith
is_valid_port-IsPort v h = cc

check_port-IsPort : (v : Value) → check_port v ≡ ok tt → IsPort (stored_port v)
unfolding check_port
check_port-IsPort null h = tt
check_port-IsPort v h = is_valid_port-IsPort v (ground arith)

of_port : (p : Option ℤ) → IsPort p → check_port (port_value p) ≡ ok tt
unfolding check_port is_valid_port
of_port none h = refl
of_port (some p) h = ground arith

stored_port-port_value : (p : Option ℤ) → stored_port (port_value p) ≡ p
stored_port-port_value none = refl
stored_port-port_value (some p) = refl

pub healthy_ip_eq→eq : (x y : AHealthyIp) → healthy_ip_eq x y ≡ true → x ≡ y
unfolding healthy_ip_eq
healthy_ip_eq→eq x y h = ground (arith, text_eq→eq x.ip y.ip)

pub healthy_ip_eq_refl : (x : AHealthyIp) → healthy_ip_eq x x ≡ true
unfolding healthy_ip_eq
healthy_ip_eq_refl x = ground (arith, text_eq_refl x.ip)

module _ (u : Unicode) (laws : AsciiLaws u) where
  -- An address that is built from an ASCII text has the normalised text, which is in normal form,
  -- no port or one from 1 to 65535, and the given status.
  pub make_healthy_ip-IsWellFormed :
      (ip : Text) (health_port : Value) (h : Bool) (x : AHealthyIp)
      → IsAscii ip
      → make_healthy_ip u (str ip) health_port h ≡ ok x
      → IsWellFormed x × (x.is_healthy ≡ h) × (x.ip ≡ normalize_ip ip)
  unfolding make_healthy_ip
  make_healthy_ip-IsWellFormed ip health_port h x a e =
      let (r, valid, e') = >>=-eq-ok (is_valid_ip u (str ip)) _ e in
      let canonical =
        normalize_ip-IsCanonical ip
          (IsDotted-of_is_valid_ip u laws ip a (is_valid_ip_message u ip r valid (ground arith))) in
      let port = check_port-IsPort health_port (ground arith) in
      let same_ip : normalize_ip ip ≡ x.ip = ground arith in
      let same_port : stored_port health_port ≡ x.health_port = ground arith in
      (
        record {
          canonical = subst IsCanonical same_ip canonical;
          port = subst IsPort same_port port;
        },
        ground arith,
        sym same_ip,
      )

  -- A change of the status of a well-formed address never raises: it gives the address with the
  -- new status and nothing else changed.
  pub updated_status_total :
      (x : AHealthyIp) (h : Bool)
      → IsWellFormed x
      → updated_status u x h ≡ ok (record x { is_healthy = h })
  unfolding updated_status make_healthy_ip
  updated_status_total x h w = ground (
    arith,
    is_valid_ip-canonical u laws x.ip w.canonical,
    normalize_ip-canonical_id x.ip w.canonical,
    of_port x.health_port w.port,
    stored_port-port_value x.health_port,
  )

check_port-MayRefuse : (v : Value) → MayRefuse (check_port v)
unfolding check_port
check_port-MayRefuse null = tt
check_port-MayRefuse v = raise_if-MayRefuse (not (is_valid_port v).0)

-- The constructor raises nothing but `ValueError`.
pub make_healthy_ip-MayRefuse :
    (u : Unicode) (v health_port : Value) (h : Bool) → MayRefuse (make_healthy_ip u v health_port h)
unfolding make_healthy_ip
make_healthy_ip-MayRefuse u v health_port h =
    >>=-MayRefuse (is_valid_ip u v) _ (is_valid_ip-MayRefuse u v) (λ checked.
      >>-MayRefuse (raise_if (not checked.0) value_error) _ (raise_if-MayRefuse (not checked.0))
        (>>-MayRefuse (check_port health_port) _ (check_port-MayRefuse health_port) tt))
