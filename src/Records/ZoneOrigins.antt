-- ===== src/Records/ZoneOrigins.antt =====
-- records/zone_origins.py.
pub mod Matching
pub mod Configured
mod Tests
use a_healthy_dns.Base.{
  ℕ, Bool, true, false, not, ◌&&◌, ◌||◌, Option, none, some, List, [], ◌∷◌, ltb, ◌==◌,
  if◌then◌else◌, find?, Result, ok, raised, value_error, dns_error, ◌>>=◌, ◌>>◌, raise_if,
}
use a_healthy_dns.Base.Set.{frozenset}
use a_healthy_dns.Base.Sorting.{sorted}
use a_healthy_dns.Base.Text.{Text}
use a_healthy_dns.Json.{Value, text_of}
use a_healthy_dns.Dns.Names.{Names}
use a_healthy_dns.Tools.Subdomain.{is_valid_subdomain}

-- `s < t` on `str`
abbrev text_ltb : Text → Text → Bool
text_ltb s [] = false
text_ltb [] (d ∷ t) = true
text_ltb (c ∷ s) (d ∷ t) = ltb c d || (c == d && text_ltb s t)

module _ (names : Names) where
  open names use {
    Name, name_eq, label_count, to_text, from_text, root, is_absolute, is_subdomain,
    relativize as relative_to,
  }

  pub record ZoneOrigins : Type 0 where
    pub primary : Name
    pub origins : List Name

  unfoldable pub or_raise : Option Name → Result Name
  or_raise none = raised dns_error
  or_raise (some name) = ok name

  -- `_to_abs_name`; the text is read only where the test has found one
  unfoldable pub to_abs_name : Value → Result Name
  unfolding or_raise
  to_abs_name raw_name =
      let (success, error) = is_valid_subdomain raw_name [] in
      if not success then raised value_error else or_raise (from_text (text_of raw_name) root)

  unfoldable pub to_abs_names : List Value → Result (List Name)
  unfolding to_abs_name
  to_abs_names [] = ok []
  to_abs_names (alias ∷ aliases) = do
    name ← to_abs_name alias
    rest ← to_abs_names aliases
    ok (name ∷ rest)

  -- The key `(-len(zone), zone.to_text())`: `zone` does not come behind `other`.
  pub key_le : Name → Name → Bool
  key_le zone other =
      ltb (label_count other) (label_count zone)
      || (label_count zone == label_count other && not (text_ltb (to_text other) (to_text zone)))

  -- `ZoneOrigins.__init__`
  unfoldable pub make_zone_origins : Value → List Value → Result ZoneOrigins
  unfolding key_le
  make_zone_origins primary aliases = do
    primary_name ← to_abs_name primary
    alias_names ← to_abs_names aliases
    ok (record {
      primary = primary_name;
      origins = sorted key_le (frozenset name_eq (primary_name ∷ alias_names));
    })

  unfoldable pub origin_for : ZoneOrigins → Name → Option Name
  origin_for self name =
      if not (is_absolute name)
      then some self.primary
      else find? (λ origin. is_subdomain name origin) self.origins

  relative_name : Name → Option Name → Option Name
  relative_name name none = none
  relative_name name (some origin) = some (relative_to name origin)

  unfoldable pub relativize : ZoneOrigins → Name → Option Name
  unfolding relative_name
  relativize self name =
      if not (is_absolute name) then some name else relative_name name (origin_for self name)

  -- `ZoneOrigins.__eq__`
  origins_eq : List Name → List Name → Bool
  origins_eq [] [] = true
  origins_eq [] (b ∷ bs) = false
  origins_eq (a ∷ as_) [] = false
  origins_eq (a ∷ as_) (b ∷ bs) = name_eq a b && origins_eq as_ bs

  pub zone_origins_eq : ZoneOrigins → ZoneOrigins → Bool
  unfolding origins_eq
  zone_origins_eq self other =
      name_eq self.primary other.primary && origins_eq self.origins other.origins
