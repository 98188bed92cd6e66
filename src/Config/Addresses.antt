-- ===== src/Config/Addresses.antt =====
-- The addresses of an entry: `[AHealthyIp(ip, health_port, False) for ip in ip_list]`.
use mathlib.Core.List.{Memᴰ}
use a_healthy_dns.Base.{
  ℕ, ◌<◌, ◌≡◌, ◌↔◌, refl, sym, subst, ◌∙◌, inl, inr, true, false, List, [], ◌∷◌, map, All, ◌==◌,
  Bool-cases, arith, ok, >>=-eq-ok,
}
use a_healthy_dns.Base.Text.{Text, split, lstrip}
use a_healthy_dns.Base.Text.Parts.{join-split, join-All, All-join}
use a_healthy_dns.Json.{Value, str}
use a_healthy_dns.Unicode.{Unicode, AsciiLaws}
use a_healthy_dns.Tools.Ip.{is_valid_ip, normalize_octet, or_zero, normalize_ip}
use a_healthy_dns.Tools.Ip.Octet.{IsAscii}
use a_healthy_dns.Records.HealthyIp.{AHealthyIp, make_healthy_ip}
use a_healthy_dns.Records.HealthyIp.Status.{IsWellFormed, make_healthy_ip-IsWellFormed}
use a_healthy_dns.Config.{make_healthy_ips}

of_lstrip : (z : ℕ) (s : Text) → z < 128 → IsAscii (lstrip z s) → IsAscii s
unfolding lstrip
of_lstrip z [] b h = tt
of_lstrip z (c ∷ s) b h = elim (Bool-cases (c == z)) [
  | inl e ↦ (ground arith, of_lstrip z s b (subst IsAscii (skipped e) h))
  | inr e ↦ subst IsAscii (kept e) h
]
  where
    skipped : (c == z) ≡ true → lstrip z (c ∷ s) ≡ lstrip z s
    skipped e = ground arith

    kept : (c == z) ≡ false → lstrip z (c ∷ s) ≡ c ∷ s
    kept e = ground arith

of_or_zero : (s : Text) → IsAscii (or_zero s) → IsAscii s
of_or_zero [] h = tt
of_or_zero (c ∷ s) h = h

of_octets : (ps : List Text) → All IsAscii (map normalize_octet ps) → All IsAscii ps
unfolding normalize_octet
of_octets [] h = tt
of_octets (p ∷ ps) h =
    (of_lstrip b'0' p (omega arith) (of_or_zero (lstrip b'0' p) h.0), of_octets ps h.1)

-- Normalising takes no character away but zeros.
IsAscii-of_normalize_ip : (ip : Text) → IsAscii (normalize_ip ip) → IsAscii ip
unfolding normalize_ip
IsAscii-of_normalize_ip ip h =
    let parts =
      of_octets (split b'.' ip) (join-All _ b'.' (map normalize_octet (split b'.' ip)) h) in
    subst IsAscii (join-split b'.' ip) (All-join _ b'.' (split b'.' ip) (omega arith) parts)

-- An unhealthy address, in normal form unless it has a character outside ASCII.
abbrev pub IsFresh : AHealthyIp → Type 0
IsFresh x = (x.is_healthy ≡ false) × (IsAscii x.ip → IsWellFormed x)

module _ (u : Unicode) where
  make_healthy_ip_text :
      (v health_port : Value) (x : AHealthyIp)
      → make_healthy_ip u v health_port false ≡ ok x
      → (ip : Text) × (v ≡ str ip)
  unfolding make_healthy_ip is_valid_ip
  make_healthy_ip_text (str ip) health_port x e = (ip, refl)
  make_healthy_ip_text v health_port x e = cc

  make_healthy_ip_fields :
      (ip : Text) (health_port : Value) (x : AHealthyIp)
      → make_healthy_ip u (str ip) health_port false ≡ ok x
      → (x.is_healthy ≡ false) × (normalize_ip ip ≡ x.ip)
  unfolding make_healthy_ip
  make_healthy_ip_fields ip health_port x e =
      let (r, valid, e') = >>=-eq-ok (is_valid_ip u (str ip)) _ e in (ground arith, ground arith)

  pub make_healthy_ip-IsFresh :
      (laws : AsciiLaws u) (v health_port : Value) (x : AHealthyIp)
      → make_healthy_ip u v health_port false ≡ ok x
      → IsFresh x
  make_healthy_ip-IsFresh laws v health_port x e =
      let (ip, same) = make_healthy_ip_text v health_port x e in
      let e' = subst (λ w. make_healthy_ip u w health_port false ≡ ok x) same e in
      let (unhealthy, text) = make_healthy_ip_fields ip health_port x e' in
      (
        unhealthy,
        λ a.
            (make_healthy_ip-IsWellFormed u laws ip health_port false x
              (IsAscii-of_normalize_ip ip (subst IsAscii (sym text) a)) e').0,
      )

  -- The addresses of a list are those that the constructor makes of its values.
  pub mem-make_healthy_ips_iff :
      (health_port : Value) (vs : List Value) (xs : List AHealthyIp)
      → make_healthy_ips u health_port vs ≡ ok xs
      → (x : AHealthyIp)
      → Memᴰ x xs ↔ ((v : Value) × Memᴰ v vs × (make_healthy_ip u v health_port false ≡ ok x))
  unfolding make_healthy_ips
  mem-make_healthy_ips_iff health_port [] xs e x =
      let none_made : [] ≡ xs = ground arith in
      (λ m. elim (subst (Memᴰ x) (sym none_made) m) [ ], λ (v, m, k). elim m [ ])
  mem-make_healthy_ips_iff health_port (v ∷ vs) xs e x =
      let (y, made, e') = >>=-eq-ok (make_healthy_ip u v health_port false) _ e in
      let (ys, rest, e'') = >>=-eq-ok (make_healthy_ips u health_port vs) _ e' in
      let all_made : y ∷ ys ≡ xs = ground arith in
      let ih = mem-make_healthy_ips_iff health_port vs ys rest x in
      (
        λ m. to y ys made ih.0 (subst (Memᴰ x) (sym all_made) m),
        λ (w, m, k). subst (Memᴰ x) all_made (from y ys made (λ z n h. ih.1 (z, n, h)) w m k),
      )
    where
      to :
          (y : AHealthyIp) (ys : List AHealthyIp)
          → make_healthy_ip u v health_port false ≡ ok y
          → (Memᴰ x ys → (w : Value) × Memᴰ w vs × (make_healthy_ip u w health_port false ≡ ok x))
          → Memᴰ x (y ∷ ys)
          → (w : Value) × Memᴰ w (v ∷ vs) × (make_healthy_ip u w health_port false ≡ ok x)
      to y ys made f (Memᴰ.head h) = (
        v,
        Memᴰ.head refl,
        subst (λ z. make_healthy_ip u v health_port false ≡ ok z) (sym h) made,
      )
      to y ys made f (Memᴰ.tail n) = let (w, m, k) = f n in (w, Memᴰ.tail m, k)

      from :
          (y : AHealthyIp) (ys : List AHealthyIp)
          → make_healthy_ip u v health_port false ≡ ok y
          → ((w : Value) → Memᴰ w vs → make_healthy_ip u w health_port false ≡ ok x → Memᴰ x ys)
          → (w : Value) → Memᴰ w (v ∷ vs)
          → make_healthy_ip u w health_port false ≡ ok x
          → Memᴰ x (y ∷ ys)
      from y ys made f w (Memᴰ.head h) k =
          let both : ok x ≡ ok y =
            sym k ∙ subst (λ z. make_healthy_ip u z health_port false ≡ ok y) (sym h) made in
          Memᴰ.head (ground arith)
      from y ys made f w (Memᴰ.tail n) k = Memᴰ.tail (f w n k)
