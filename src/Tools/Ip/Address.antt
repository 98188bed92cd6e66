-- ===== src/Tools/Ip/Address.antt =====
-- Whole addresses: what `is_valid_ip` accepts, and what `normalize_ip` makes of it.
use a_healthy_dns.Base.{
  ℕ, ◌≤◌, ◌<◌, ◌≡◌, ◌↔◌, refl, sym, ◌∙◌, ap, Bool, true, List, String, [], ◌∷◌, arith, length, All,
  All-map, All-append, length-append, ◌++◌, map, ok,
}
use a_healthy_dns.Base.Text.{Text, split, join, Lacks}
use a_healthy_dns.Base.Text.Parts.{split-join, join-split, split-All, split-Within, Within}
use a_healthy_dns.Json.{str}
use a_healthy_dns.Unicode.{Unicode, AsciiLaws, max_str_digits}
use a_healthy_dns.Tools.Ip.{all_octets, valid_parts, is_valid_ip, normalize_ip, normalize_octet}
use a_healthy_dns.Tools.Ip.Octet.{
  IsAscii, IsDigits, IsOctet, value, show_octet, is_octet_of, of_is_octet, normalize_octet_lem,
  show_octet-IsOctet, show_octet-short, value-show_octet,
}

-- Four octets between dots.
pub record IsDotted (s : Text) : Type 0 where
  pub a : Text
  pub b : Text
  pub c : Text
  pub d : Text
  pub octets : All IsOctet (a ∷ b ∷ c ∷ d ∷ [])
  pub spells : s ≡ join b'.' (a ∷ b ∷ c ∷ d ∷ [])

IsDigits-Lacks : (s : Text) → IsDigits s → Lacks b'.' s
IsDigits-Lacks [] h = tt
IsDigits-Lacks (c ∷ s) h = (omega arith, IsDigits-Lacks s h.1)

octets-Lacks : (ps : List Text) → All IsOctet ps → All (Lacks b'.') ps
octets-Lacks = All-map (λ s o. IsDigits-Lacks s o.digits)

of_parts :
    (s : Text) (ps : List Text) → split b'.' s ≡ ps → length ps ≡ 4 → All IsOctet ps → IsDotted s
of_parts s (a ∷ (b ∷ (c ∷ (d ∷ [])))) e l o = record {
  a = a;
  b = b;
  c = c;
  d = d;
  octets = o;
  spells = rw (← e) (sym (join-split b'.' s));
}
of_parts s [] e l o = absurd (omega arith)
of_parts s (a ∷ []) e l o = absurd (omega arith)
of_parts s (a ∷ (b ∷ [])) e l o = absurd (omega arith)
of_parts s (a ∷ (b ∷ (c ∷ []))) e l o = absurd (omega arith)
of_parts s (a ∷ (b ∷ (c ∷ (d ∷ (f ∷ ps))))) e l o = absurd (omega arith)

split-dotted : (s : Text) (v : IsDotted s) → split b'.' s ≡ v.a ∷ v.b ∷ v.c ∷ v.d ∷ []
split-dotted s v =
    ap (split b'.') v.spells
    ∙ split-join b'.' (v.a ∷ v.b ∷ v.c ∷ v.d ∷ []) (λ e. cc)
        (octets-Lacks (v.a ∷ v.b ∷ v.c ∷ v.d ∷ []) v.octets)

module _ (u : Unicode) (laws : AsciiLaws u) where
  of_all_octets : (ps : List Text) → All IsAscii ps → all_octets u ps ≡ ok true → All IsOctet ps
  unfolding all_octets
  of_all_octets [] h e = tt
  of_all_octets (p ∷ ps) h e =
      (of_is_octet u laws p h.0 (ground arith), of_all_octets ps h.1 (ground arith))

  all_octets_of :
      (ps : List Text)
      → All IsAscii ps
      → All (Within max_str_digits) ps
      → All IsOctet ps
      → all_octets u ps ≡ ok true
  unfolding all_octets
  all_octets_of [] h k o = refl
  all_octets_of (p ∷ ps) h k o =
      ground (arith, is_octet_of u laws p h.0 k.0 o.0, all_octets_of ps h.1 k.1 o.1)

  of_valid_parts :
      (ps : List Text)
      → All IsAscii ps
      → valid_parts u ps ≡ ok (true, "")
      → (length ps ≡ 4) × All IsOctet ps
  unfolding valid_parts
  of_valid_parts ps h v = (ground arith, of_all_octets ps h (ground arith))

  valid_parts_of :
      (ps : List Text)
      → All IsAscii ps
      → All (Within max_str_digits) ps
      → length ps ≡ 4
      → All IsOctet ps
      → valid_parts u ps ≡ ok (true, "")
  unfolding valid_parts
  valid_parts_of ps h k l o = ground (arith, all_octets_of ps h k o)

  pub IsDotted-of_is_valid_ip :
      (s : Text) → IsAscii s → is_valid_ip u (str s) ≡ ok (true, "") → IsDotted s
  unfolding is_valid_ip
  IsDotted-of_is_valid_ip s h v =
      let e = of_valid_parts (split b'.' s) (split-All (λ c. c < 128) b'.' s h) v in
      of_parts s (split b'.' s) refl e.0 e.1

  is_valid_ip_of_IsDotted :
      (s : Text)
      → IsAscii s
      → length s ≤ max_str_digits
      → IsDotted s
      → is_valid_ip u (str s) ≡ ok (true, "")
  unfolding is_valid_ip
  is_valid_ip_of_IsDotted s h l v =
      valid_parts_of (split b'.' s) (split-All (λ c. c < 128) b'.' s h)
        (All-map (λ p (k : length p ≤ length s). omega arith) (split b'.' s) (split-Within b'.' s))
        (ap length (split-dotted s v)) (rw (split-dotted s v) v.octets)

  -- An ASCII text whose length `int` can read is accepted exactly when it is four decimal numbers
  -- from 0 to 255 between dots; leading zeros are allowed.
  pub is_valid_ip_iff :
      (s : Text)
      → IsAscii s
      → length s ≤ max_str_digits
      → (is_valid_ip u (str s) ≡ ok (true, "")) ↔ IsDotted s
  is_valid_ip_iff s h l = (IsDotted-of_is_valid_ip s h, is_valid_ip_of_IsDotted s h l)

-- A text that is accepted comes with no message.
pub is_valid_ip_message :
    (u : Unicode) (s : Text) (r : Bool × String)
    → is_valid_ip u (str s) ≡ ok r
    → r.0 ≡ true
    → is_valid_ip u (str s) ≡ ok (true, "")
unfolding is_valid_ip valid_parts
is_valid_ip_message u s r e h = ground arith

-- The address of four numbers, in canonical form.
unfoldable pub dotted : ℕ → ℕ → ℕ → ℕ → Text
dotted a b c d = join b'.' (show_octet a ∷ show_octet b ∷ show_octet c ∷ show_octet d ∷ [])

-- Normalising the text of four decimal numbers from 0 to 255 between dots gives the canonical text,
-- without leading zeros, of the values of the four numbers.
pub normalize_ip_canonical :
    (a b c d : Text)
    → All IsOctet (a ∷ b ∷ c ∷ d ∷ [])
    → normalize_ip (join b'.' (a ∷ b ∷ c ∷ d ∷ []))
      ≡ dotted (value 0 a) (value 0 b) (value 0 c) (value 0 d)
unfolding normalize_ip dotted
normalize_ip_canonical a b c d o =
    ap (λ ps. join b'.' (map normalize_octet ps))
      (split-join b'.' (a ∷ b ∷ c ∷ d ∷ []) (λ e. cc) (octets-Lacks (a ∷ b ∷ c ∷ d ∷ []) o))
    ∙ rw (
      normalize_octet_lem a o.0,
      normalize_octet_lem b o.1.0,
      normalize_octet_lem c o.1.1.0,
      normalize_octet_lem d o.1.1.1.0,
    )

dotted-octets :
    (a b c d : ℕ)
    → a ≤ 255
    → b ≤ 255
    → c ≤ 255
    → d ≤ 255
    → All IsOctet (show_octet a ∷ show_octet b ∷ show_octet c ∷ show_octet d ∷ [])
dotted-octets a b c d ha hb hc hd = (
  show_octet-IsOctet a ha,
  (show_octet-IsOctet b hb, (show_octet-IsOctet c hc, (show_octet-IsOctet d hd, tt))),
)

-- The canonical text of some address.
pub record IsCanonical (s : Text) : Type 0 where
  pub a : ℕ
  pub b : ℕ
  pub c : ℕ
  pub d : ℕ
  pub a_bound : a ≤ 255
  pub b_bound : b ≤ 255
  pub c_bound : c ≤ 255
  pub d_bound : d ≤ 255
  pub spells : s ≡ dotted a b c d

pub IsCanonical-IsDotted : (s : Text) → IsCanonical s → IsDotted s
unfolding dotted
IsCanonical-IsDotted s k = record {
  a = show_octet k.a;
  b = show_octet k.b;
  c = show_octet k.c;
  d = show_octet k.d;
  octets = dotted-octets k.a k.b k.c k.d k.a_bound k.b_bound k.c_bound k.d_bound;
  spells = k.spells;
}

-- Normalising a text of four decimal numbers from 0 to 255 between dots gives the canonical text,
-- without leading zeros, of four such numbers.
pub normalize_ip-IsCanonical : (s : Text) → IsDotted s → IsCanonical (normalize_ip s)
normalize_ip-IsCanonical s v = record {
  a = value 0 v.a;
  b = value 0 v.b;
  c = value 0 v.c;
  d = value 0 v.d;
  a_bound = v.octets.0.bounded;
  b_bound = v.octets.1.0.bounded;
  c_bound = v.octets.1.1.0.bounded;
  d_bound = v.octets.1.1.1.0.bounded;
  spells = ap normalize_ip v.spells ∙ normalize_ip_canonical v.a v.b v.c v.d v.octets;
}

-- A canonical text is left as it is.
pub normalize_ip-canonical_id : (s : Text) → IsCanonical s → normalize_ip s ≡ s
unfolding dotted
normalize_ip-canonical_id s k =
    ap normalize_ip k.spells
    ∙ normalize_ip_canonical (show_octet k.a) (show_octet k.b) (show_octet k.c) (show_octet k.d)
        (dotted-octets k.a k.b k.c k.d k.a_bound k.b_bound k.c_bound k.d_bound)
    ∙ rw
        (
          value-show_octet k.a k.a_bound,
          value-show_octet k.b k.b_bound,
          value-show_octet k.c k.c_bound,
          value-show_octet k.d k.d_bound,
        )
        (sym k.spells)

dotted-short :
    (a b c d : ℕ)
    → a ≤ 255
    → b ≤ 255
    → c ≤ 255
    → d ≤ 255
    → IsAscii (dotted a b c d) × (length (dotted a b c d) ≤ 15)
unfolding dotted join
dotted-short a b c d ha hb hc hd =
    let sa = show_octet-short a ha in
    let sb = show_octet-short b hb in
    let sc = show_octet-short c hc in
    let sd = show_octet-short d hd in
    let cd : Text = show_octet c ++ (b'.' ∷ show_octet d) in
    let bcd : Text = show_octet b ++ (b'.' ∷ cd) in
    (
      All-append (λ x. x < 128) (show_octet a) (b'.' ∷ bcd) sa.0
          (
            omega arith,
            All-append (λ x. x < 128) (show_octet b) (b'.' ∷ cd) sb.0
                (
                  omega arith,
                  All-append (λ x. x < 128) (show_octet c) (b'.' ∷ show_octet d) sc.0
                      (omega arith, sd.0),
                ),
          ),
      omega (
        arith,
        length-append {0} (show_octet a) (b'.' ∷ bcd),
        length-append {0} (show_octet b) (b'.' ∷ cd),
        length-append {0} (show_octet c) (b'.' ∷ show_octet d),
      ),
    )

-- The validator accepts every canonical text.
pub is_valid_ip-canonical :
    (u : Unicode) → AsciiLaws u → (s : Text) → IsCanonical s → is_valid_ip u (str s) ≡ ok (true, "")
is_valid_ip-canonical u laws s k =
    let short = dotted-short k.a k.b k.c k.d k.a_bound k.b_bound k.c_bound k.d_bound in
    is_valid_ip_of_IsDotted u laws s (rw k.spells short.0) (rw k.spells (omega (arith, short.1)))
      (IsCanonical-IsDotted s k)
