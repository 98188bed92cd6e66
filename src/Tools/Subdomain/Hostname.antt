-- ===== src/Tools/Subdomain/Hostname.antt =====
-- The validator against the rules for host names, written as a predicate.
use a_healthy_dns.Base.{
  ℕ, ◌≤◌, ◌≡◌, ◌≢◌, ◌↔◌, ◌⊎◌, refl, inl, inr, true, false, List, [], ◌∷◌, arith, ◌==◌, Bool-cases,
  length, length-append, any, All, All-map, all_iff, &&_iff, sym,
}
use a_healthy_dns.Base.Text.{Text, split, join, Lacks}
use a_healthy_dns.Base.Text.Parts.{split-join, join-split, split-ne-nil}
use a_healthy_dns.Json.{Value, str}
use a_healthy_dns.Tools.Subdomain.{
  is_label_char, is_ascii_ldh_label, is_filled_ldh, is_short, isalnum, last, has_alnum_ends,
  absolute_length, valid_labels, valid_text, is_valid_subdomain, is_valid_fqdn,
}

-- ASCII letters, digits and hyphens.
abbrev pub IsLetter : ℕ → Type 0
IsLetter c = ((b'a' ≤ c) × (c ≤ b'z')) ⊎ ((b'A' ≤ c) × (c ≤ b'Z'))

abbrev pub IsAlnum : ℕ → Type 0
IsAlnum c = IsLetter c ⊎ ((b'0' ≤ c) × (c ≤ b'9'))

abbrev pub IsLabelChar : ℕ → Type 0
IsLabelChar c = IsAlnum c ⊎ (c ≡ b'-')

abbrev pub HasAlnumEnds : Text → Type 0
HasAlnumEnds [] = ⊥
HasAlnumEnds (c ∷ s) = IsAlnum c × IsAlnum (last c s)

-- A label has 1 to 63 letters, digits and hyphens, and no hyphen at either end.
pub record IsLabel (s : Text) : Type 0 where
  pub nonempty : s ≢ []
  pub chars : All IsLabelChar s
  pub short : length s ≤ 63
  pub ends : HasAlnumEnds s

abbrev IsFilled : Text → Type 0
IsFilled s = (s ≢ []) × All IsLabelChar s

isalnum_iff : (c : ℕ) → (isalnum c ≡ true) ↔ IsAlnum c
isalnum_iff c = ground arith

is_label_char_iff : (c : ℕ) → (is_label_char c ≡ true) ↔ IsLabelChar c
is_label_char_iff c = ground arith

is_filled_ldh_iff : (s : Text) → (is_filled_ldh s ≡ true) ↔ IsFilled s
unfolding is_filled_ldh is_ascii_ldh_label
is_filled_ldh_iff [] = (λ e. cc, λ k. absurd (k.0 refl))
is_filled_ldh_iff (c ∷ s) =
    let h = all_iff is_label_char is_label_char_iff (c ∷ s) in (λ e. (λ n. cc, h.0 e), λ k. h.1 k.1)

is_short_iff : (s : Text) → (is_short s ≡ true) ↔ (length s ≤ 63)
unfolding is_short
is_short_iff s = ground arith

has_alnum_ends_iff : (s : Text) → (has_alnum_ends s ≡ true) ↔ HasAlnumEnds s
unfolding has_alnum_ends
has_alnum_ends_iff [] = (λ e. cc, λ k. absurd k)
has_alnum_ends_iff (c ∷ s) =
    let h = &&_iff (isalnum c) (isalnum (last c s)) in
    (
      λ e. ((isalnum_iff c).0 (h.0 e).0, (isalnum_iff (last c s)).0 (h.0 e).1),
      λ k. h.1 ((isalnum_iff c).1 k.0, (isalnum_iff (last c s)).1 k.1),
    )

combine :
    (ls : List Text)
    → All IsFilled ls
    → All (λ s. length s ≤ 63) ls
    → All HasAlnumEnds ls
    → All IsLabel ls
combine [] f s e = tt
combine (l ∷ ls) f s e =
    (record { nonempty = f.0.0; chars = f.0.1; short = s.0; ends = e.0 }, combine ls f.1 s.1 e.1)

valid_labels_iff : (ls : List Text) → (valid_labels ls ≡ (true, "")) ↔ All IsLabel ls
unfolding valid_labels
valid_labels_iff ls =
    let f = all_iff is_filled_ldh is_filled_ldh_iff ls in
    let s = all_iff is_short is_short_iff ls in
    let e = all_iff has_alnum_ends has_alnum_ends_iff ls in
    (
      λ v. combine ls (f.0 (ground arith)) (s.0 (ground arith)) (e.0 (ground arith)),
      λ v.
          let f' = f.1 (All-map (λ l (k : IsLabel l). (k.nonempty, k.chars)) ls v) in
          let s' = s.1 (All-map (λ l (k : IsLabel l). k.short) ls v) in
          let e' = e.1 (All-map (λ l (k : IsLabel l). k.ends) ls v) in rw (f', s', e'),
    )

IsLabelChar-ne-dot : (s : Text) → All IsLabelChar s → Lacks b'.' s
IsLabelChar-ne-dot [] h = tt
IsLabelChar-ne-dot (c ∷ s) h = (omega arith, IsLabelChar-ne-dot s h.1)

-- A name below an origin: labels between dots, at most 253 characters with the origin.
pub record IsHostname (name origin : Text) : Type 0 where
  pub labels : List Text
  pub some_label : labels ≢ []
  pub valid : All IsLabel labels
  pub spells : name ≡ join b'.' labels
  pub nonempty : name ≢ []
  pub fits : absolute_length name origin ≤ 253

length-le-absolute_length : (name origin : Text) → length name ≤ absolute_length name origin
unfolding absolute_length
length-le-absolute_length name [] = omega arith
length-le-absolute_length name (c ∷ origin) =
    omega (arith, length-append {0} name (b'.' ∷ (c ∷ origin)))

valid_text_iff :
    (name origin : Text)
    → (valid_text name origin ≡ (true, ""))
      ↔ ((name ≢ []) × (absolute_length name origin ≤ 253) × All IsLabel (split b'.' name))
unfolding valid_text
valid_text_iff [] origin = (λ e. cc, λ k. absurd (k.0 refl))
valid_text_iff (c ∷ s) origin =
    let e = valid_labels_iff (split b'.' (c ∷ s)) in
    (
      λ v. (λ n. cc, ground arith, e.0 (ground arith)),
      λ k. ground (arith, e.1 k.2, length-le-absolute_length (c ∷ s) origin),
    )

-- A text is accepted below an origin exactly when it is a host name there.
pub is_valid_subdomain_iff :
    (name origin : Text)
    → (is_valid_subdomain (str name) origin ≡ (true, "")) ↔ IsHostname name origin
unfolding is_valid_subdomain
is_valid_subdomain_iff name origin =
    let e = valid_text_iff name origin in
    (
      λ v. record {
        labels = split b'.' name;
        some_label = split-ne-nil b'.' name;
        valid = (e.0 v).2;
        spells = sym (join-split b'.' name);
        nonempty = (e.0 v).0;
        fits = (e.0 v).1;
      },
      λ h. e.1 (
        h.nonempty,
        h.fits,
        rw
            (
              h.spells,
              split-join b'.' h.labels h.some_label
                  (All-map (λ l (k : IsLabel l). IsLabelChar-ne-dot l k.chars) h.labels h.valid),
            )
            h.valid,
      ),
    )

any_dot_false : (s : Text) → Lacks b'.' s → any (λ c. c == b'.') s ≡ false
any_dot_false [] h = refl
any_dot_false (c ∷ s) h = ground (arith, any_dot_false s h.1)

any_dot_true : (s : Text) → ¬ Lacks b'.' s → any (λ c. c == b'.') s ≡ true
any_dot_true [] h = absurd (h tt)
any_dot_true (c ∷ s) h = elim (Bool-cases (c == b'.')) [
  | inl e ↦ rw e
  | inr e ↦ rw e (any_dot_true s (λ k. h (ground arith, k)))
]

valid_text-true : (name : Text) → (valid_text name []).0 ≡ true → valid_text name [] ≡ (true, "")
unfolding valid_text valid_labels
valid_text-true [] h = cc
valid_text-true (c ∷ s) h = ground arith

-- A text is a full host name exactly when it is a host name with a dot in it.
pub is_valid_fqdn_iff :
    (name : Text)
    → (is_valid_fqdn (str name) ≡ (true, "")) ↔ (IsHostname name [] × (¬ Lacks b'.' name))
unfolding is_valid_fqdn is_valid_subdomain
is_valid_fqdn_iff name =
    let e = is_valid_subdomain_iff name [] in
    (
      λ v. (e.0 (ground (arith, valid_text-true name)), λ k. ground (arith, any_dot_false name k)),
      λ k. ground (arith, e.1 k.0, any_dot_true name k.1),
    )

-- The flag of the pair tells it all.
pub is_valid_subdomain_flag :
    (name origin : Text)
    → (is_valid_subdomain (str name) origin).0 ≡ true
    → is_valid_subdomain (str name) origin ≡ (true, "")
unfolding is_valid_subdomain valid_text valid_labels
is_valid_subdomain_flag [] origin h = cc
is_valid_subdomain_flag (c ∷ s) origin h = ground arith

pub is_valid_fqdn_flag :
    (v : Value)
    → (is_valid_fqdn v).0 ≡ true
    → (name : Text) × (v ≡ str name) × (is_valid_fqdn (str name) ≡ (true, ""))
unfolding is_valid_fqdn is_valid_subdomain
is_valid_fqdn_flag (str name) h = (name, refl, ground (arith, valid_text-true name))
is_valid_fqdn_flag v h = cc
