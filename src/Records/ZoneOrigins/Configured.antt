-- ===== src/Records/ZoneOrigins/Configured.antt =====
-- The zone of a name, for a value that the constructor has made.
use a_healthy_dns.Base.{
  ◌≤◌, ◌≡◌, ◌↔◌, ◌⊎◌, subst, sym, ◌∙◌, true, false, none, some, List, ◌∷◌, All, ok, arith,
}
use a_healthy_dns.Base.Set.{contains}
use a_healthy_dns.Json.{Value}
use a_healthy_dns.Dns.Names.{Names, NamesLaws}
use a_healthy_dns.Records.ZoneOrigins.{ZoneOrigins, to_abs_names, make_zone_origins, origin_for}
use a_healthy_dns.Records.ZoneOrigins.Matching.{
  make_zone_origins-IsBuilt, unmatched_iff, matched_longest,
}

module _ (names : Names) (laws : NamesLaws names) (primary : Value) (aliases : List Value)
    (z : ZoneOrigins names) (alias_names : List names.Name)
    (reads : to_abs_names names aliases ≡ ok alias_names)
    (made : make_zone_origins names primary aliases ≡ ok z) where
  open names use {Name, name_eq, label_count, is_absolute, is_subdomain}

  same_aliases : (read : List Name) → to_abs_names names aliases ≡ ok read → read ≡ alias_names
  same_aliases read h = let both : ok read ≡ ok alias_names = sym h ∙ reads in ground arith

  module _ (name : Name) (absolute : is_absolute name ≡ true) where
    -- In a value that was made of a primary zone and aliases, an absolute name has no zone exactly when
    -- it lies below neither the primary zone nor an alias.
    pub origin_for-eq-none_iff :
        (origin_for names z name ≡ none)
        ↔ All (λ zone. is_subdomain name zone ≡ false) (z.primary ∷ alias_names)
    origin_for-eq-none_iff =
        let built = make_zone_origins-IsBuilt names primary aliases z made in
        subst
          (λ ps.
            (origin_for names z name ≡ none)
            ↔ All (λ zone. is_subdomain name zone ≡ false) (z.primary ∷ ps))
          (same_aliases built.alias_names built.aliases_read)
          (unmatched_iff names laws built name absolute)

    -- In a value that was made of a primary zone and aliases, the zone that is found for an absolute
    -- name is one of them, lies above the name, and no other of them that lies above the name has more
    -- labels.
    pub origin_for_longest :
        (origin : Name)
        → origin_for names z name ≡ some origin
        → (is_subdomain name origin ≡ true)
          × (contains name_eq origin (z.primary ∷ alias_names) ≡ true)
          × All
              (λ zone. (is_subdomain name zone ≡ false) ⊎ (label_count zone ≤ label_count origin))
              (z.primary ∷ alias_names)
    origin_for_longest origin found =
        let built = make_zone_origins-IsBuilt names primary aliases z made in
        subst
          (λ ps.
            (is_subdomain name origin ≡ true)
            × (contains name_eq origin (z.primary ∷ ps) ≡ true)
            × All
                (λ zone. (is_subdomain name zone ≡ false) ⊎ (label_count zone ≤ label_count origin))
                (z.primary ∷ ps))
          (same_aliases built.alias_names built.aliases_read)
          (matched_longest names laws built name absolute origin found)
