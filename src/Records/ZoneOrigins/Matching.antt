-- ===== src/Records/ZoneOrigins/Matching.antt =====
-- `origin_for` finds the most specific zone; every configured zone is among the origins.
use a_healthy_dns.Base.{
  ◌≤◌, ◌≡◌, ◌↔◌, ◌⊎◌, sym, ◌∙◌, inl, inr, Bool, true, false, none, some, List, ◌∷◌, arith,
  Bool-cases, any, find?, All, All-of_mem, IsOrdered, find?-eq-none_iff, find?-mem, find?-first,
  any-false_iff, any_of_mem, mem_of_any, ok, >>=-eq-ok,
}
use mathlib.Core.List.{Memᴰ}
use a_healthy_dns.Base.Set.{contains, frozenset}
use a_healthy_dns.Base.Set.Laws.{any-frozenset}
use a_healthy_dns.Base.Sorting.{sorted}
use a_healthy_dns.Base.Sorting.Laws.{any-sorted, sorted-IsOrdered}
use a_healthy_dns.Json.{Value}
use a_healthy_dns.Dns.Names.{Names, NamesLaws}
use a_healthy_dns.Records.ZoneOrigins.{
  ZoneOrigins, to_abs_name, to_abs_names, key_le, make_zone_origins, origin_for,
}

module _ (names : Names) where
  open names use {Name, name_eq, label_count, is_absolute, is_subdomain, relativize as relative_to}

  -- No zone stands behind one with fewer labels.
  abbrev IsLonger : Name → Name → Type 0
  IsLonger a b = label_count b ≤ label_count a

  key_le-IsLonger : (a b : Name) → key_le names a b ≡ true → IsLonger a b
  unfolding key_le
  key_le-IsLonger a b h = ground arith

  not_key_le-IsLonger : (a b : Name) → key_le names a b ≡ false → IsLonger b a
  unfolding key_le
  not_key_le-IsLonger a b h = ground arith

  -- What a constructed value is: the primary zone and the zones by falling length.
  pub record IsBuilt (primary : Value) (aliases : List Value) (z : ZoneOrigins names) : Type 0 where
    pub alias_names : List Name
    pub primary_read : to_abs_name names primary ≡ ok z.primary
    pub aliases_read : to_abs_names names aliases ≡ ok alias_names
    pub origins_are :
        z.origins ≡ sorted (key_le names) (frozenset name_eq (z.primary ∷ alias_names))

  pub make_zone_origins-IsBuilt :
      (primary : Value) (aliases : List Value) (z : ZoneOrigins names)
      → make_zone_origins names primary aliases ≡ ok z
      → IsBuilt primary aliases z
  unfolding make_zone_origins
  make_zone_origins-IsBuilt primary aliases z e =
      let (p, read, e') = >>=-eq-ok (to_abs_name names primary) _ e in
      let (ps, reads, e'') = >>=-eq-ok (to_abs_names names aliases) _ e' in
      record {
        alias_names = ps;
        primary_read = ground arith;
        aliases_read = reads;
        origins_are = ground arith;
      }

  module _ (laws : NamesLaws names) {primary : Value} {aliases : List Value} {z : ZoneOrigins names}
      (built : IsBuilt primary aliases z) where
    -- The hosted zone and the alias zones, as configured.
    abbrev configured : List Name
    configured = z.primary ∷ built.alias_names

    origins-IsOrdered : IsOrdered IsLonger z.origins
    origins-IsOrdered = rw (built.origins_are) (
        sorted-IsOrdered (key_le names) IsLonger key_le-IsLonger not_key_le-IsLonger
          (λ a b c h k. omega arith) (frozenset name_eq configured))

    any-origins :
        (p : Name → Bool)
        → ((a b : Name) → name_eq a b ≡ true → p a ≡ true → p b ≡ true)
        → any p z.origins ≡ any p configured
    any-origins p respects = rw (built.origins_are) (
        any-sorted (key_le names) p (frozenset name_eq configured)
        ∙ any-frozenset name_eq laws.equality p respects configured)

    respects-eq : (c a b : Name) → name_eq a b ≡ true → name_eq a c ≡ true → name_eq b c ≡ true
    respects-eq c a b e h = laws.equality.eq_trans b a c (laws.equality.eq_sym a b e) h

    module _ (name : Name) (absolute : is_absolute name ≡ true) where
      -- A name has no zone exactly when it lies below none of the configured zones.
      pub unmatched_iff :
          (origin_for names z name ≡ none) ↔ All (λ zone. is_subdomain name zone ≡ false) configured
      unfolding origin_for
      unmatched_iff =
          let p : Name → Bool = is_subdomain name in
          let f = find?-eq-none_iff p z.origins in
          let a = any-false_iff p configured in
          let m = any-origins p (laws.subdomain_eq name) in
          rw absolute (λ e. a.0 (sym m ∙ f.0 e), λ k. f.1 (m ∙ a.1 k))

      shorter :
          (origin : Name)
          → find? (is_subdomain name) z.origins ≡ some origin
          → (zone : Name) → Memᴰ zone configured
          → (is_subdomain name zone ≡ false) ⊎ (label_count zone ≤ label_count origin)
      shorter origin e zone k = elim (Bool-cases (is_subdomain name zone)) [
        | inr outside ↦ inl outside
        | inl inside ↦
            let same : Name → Bool = λ x. name_eq x zone in
            let listed =
              any-origins same (respects-eq zone)
              ∙ any_of_mem same zone configured k (laws.equality.eq_refl zone) in
            let (x, mx, ex) = mem_of_any same z.origins listed in
            let above = laws.subdomain_eq name zone x (laws.equality.eq_sym x zone ex) inside in
            let le =
              find?-first (is_subdomain name) IsLonger (λ a. omega arith) z.origins origin e
                origins-IsOrdered x mx above in
            inr (omega (arith, le, laws.count_eq x zone ex))
      ]

      -- The zone that is found is one of the longest configured zones above the name.
      pub matched_longest :
          (origin : Name)
          → origin_for names z name ≡ some origin
          → (is_subdomain name origin ≡ true)
            × (contains name_eq origin configured ≡ true)
            × All
                (λ zone. (is_subdomain name zone ≡ false) ⊎ (label_count zone ≤ label_count origin))
                configured
      unfolding origin_for
      matched_longest origin e =
          let p : Name → Bool = is_subdomain name in
          let e' : find? p z.origins ≡ some origin = ground arith in
          let (m, h) = find?-mem p z.origins origin e' in
          (
            h,
            sym (any-origins (λ x. name_eq x origin) (respects-eq origin))
                ∙ any_of_mem (λ x. name_eq x origin) origin z.origins m
                    (laws.equality.eq_refl origin),
            All-of_mem _ configured (λ zone k. shorter origin e' zone k),
          )
