-- ===== src/Tools/Ip/Refusing.antt =====
-- The address validator raises nothing but `ValueError`, whatever the Unicode database says.
use a_healthy_dns.Base.{
  ◌≡◌, inl, inr, false, List, [], ◌∷◌, arith, Bool-cases, Option-cases, subst, sym, ok, raised,
  value_error, MayRefuse, >>=-MayRefuse, if-MayRefuse, ltb, length, not, ◌==◌, ◌+◌, ◌*◌, ℕ, none,
  some,
}
use a_healthy_dns.Base.Text.{Text, split}
use a_healthy_dns.Json.{Value, str}
use a_healthy_dns.Unicode.{Unicode, isdigit, read_digits, max_str_digits, int_of}
use a_healthy_dns.Tools.Ip.{is_octet, all_octets, valid_parts, is_valid_ip}

module _ (u : Unicode) where
  read_digits-MayRefuse : (s : Text) (acc : ℕ) → MayRefuse (read_digits u s acc)
  unfolding read_digits
  read_digits-MayRefuse [] acc = tt
  read_digits-MayRefuse (c ∷ s) acc = elim (Option-cases (u.decimal c)) [
    | inl e ↦ subst MayRefuse (sym (refused e)) tt
    | inr (d, e) ↦ subst MayRefuse (sym (read d e)) (read_digits-MayRefuse s (acc * 10 + d))
  ]
    where
      refused : u.decimal c ≡ none → read_digits u (c ∷ s) acc ≡ raised value_error
      refused e = ground arith

      read :
          (d : ℕ)
          → u.decimal c ≡ some d
          → read_digits u (c ∷ s) acc ≡ read_digits u s (acc * 10 + d)
      read d e = ground arith

  int_of-MayRefuse : (s : Text) → MayRefuse (int_of u s)
  unfolding int_of
  int_of-MayRefuse s = elim (Bool-cases (ltb max_str_digits (length s))) [
    | inl e ↦ rw e tt
    | inr e ↦ rw e (read_digits-MayRefuse s 0)
  ]

  is_octet-MayRefuse : (s : Text) → MayRefuse (is_octet u s)
  unfolding is_octet
  is_octet-MayRefuse s = elim (Bool-cases (isdigit u s)) [
    | inl e ↦ rw e (>>=-MayRefuse (int_of u s) _ (int_of-MayRefuse s) (λ n. tt))
    | inr e ↦ rw e tt
  ]

  all_octets-MayRefuse : (ps : List Text) → MayRefuse (all_octets u ps)
  unfolding all_octets
  all_octets-MayRefuse [] = tt
  all_octets-MayRefuse (p ∷ ps) =
      >>=-MayRefuse (is_octet u p) _ (is_octet-MayRefuse p)
        (λ good. if-MayRefuse good (all_octets u ps) (ok false) (all_octets-MayRefuse ps) tt)

  pub is_valid_ip-MayRefuse : (v : Value) → MayRefuse (is_valid_ip u v)
  unfolding is_valid_ip valid_parts
  is_valid_ip-MayRefuse (str s) = if-MayRefuse (not (length (split b'.' s) == 4)) _ _ tt (
      >>=-MayRefuse (all_octets u (split b'.' s)) _ (all_octets-MayRefuse (split b'.' s))
        (λ good. if-MayRefuse (not good) _ _ tt tt))
  is_valid_ip-MayRefuse v = tt
