-- ===== src/Records/ZoneOrigins/Tests.antt =====
-- The zones of a server with one alias inside the hosted zone.
use a_healthy_dns.Base.{◌≤◌, ◌≡◌, ◌↔◌, ◌⊎◌, refl, true, false, none, some, List, [], ◌∷◌, ok, All}
use a_healthy_dns.Base.Set.{contains, frozenset}
use a_healthy_dns.Base.Sorting.{sorted}
use a_healthy_dns.Base.Text.{Text, codes, split}
use a_healthy_dns.Json.{Value, str}
use a_healthy_dns.Dns.Names.Sample.{Labels, sample_names, sample_names-NamesLaws}
use a_healthy_dns.Tools.Subdomain.{is_valid_subdomain}
use a_healthy_dns.Records.ZoneOrigins.{
  ZoneOrigins, to_abs_name, to_abs_names, make_zone_origins, origin_for,
}
use a_healthy_dns.Records.ZoneOrigins.Configured.{origin_for-eq-none_iff, origin_for_longest}

abbrev hosted : Value
hosted = str (codes "example.com")

abbrev aliases : List Value
aliases = str (codes "dev.example.com") ∷ []

abbrev absolute_name : List Text → Labels
absolute_name labels = record { labels = labels; absolute = true }

abbrev example_com : Labels
example_com = absolute_name (codes "example" ∷ codes "com" ∷ [])

abbrev dev : Labels
dev = absolute_name (codes "dev" ∷ codes "example" ∷ codes "com" ∷ [])

abbrev www : Labels
www = absolute_name (codes "www" ∷ codes "dev" ∷ codes "example" ∷ codes "com" ∷ [])

abbrev two_zones : ZoneOrigins sample_names
two_zones = record { primary = example_com; origins = dev ∷ example_com ∷ [] }

made : make_zone_origins sample_names hosted aliases ≡ ok two_zones
unfolding make_zone_origins is_valid_subdomain split frozenset sorted to_abs_name to_abs_names
made = refl

aliases_read : to_abs_names sample_names aliases ≡ ok (dev ∷ [])
unfolding is_valid_subdomain split to_abs_name to_abs_names
aliases_read = refl

origin_for-eq-none_iff_example :
    (origin_for sample_names two_zones www ≡ none)
    ↔ All (λ zone. sample_names.is_subdomain www zone ≡ false) (example_com ∷ dev ∷ [])
origin_for-eq-none_iff_example =
    origin_for-eq-none_iff sample_names sample_names-NamesLaws hosted aliases two_zones (dev ∷ [])
      aliases_read made www refl

found : origin_for sample_names two_zones www ≡ some dev
unfolding origin_for
found = refl

origin_for_longest_example :
    (sample_names.is_subdomain www dev ≡ true)
    × (contains sample_names.name_eq dev (example_com ∷ dev ∷ []) ≡ true)
    × All
        (λ zone.
          (sample_names.is_subdomain www zone ≡ false)
          ⊎ (sample_names.label_count zone ≤ sample_names.label_count dev))
        (example_com ∷ dev ∷ [])
origin_for_longest_example =
    origin_for_longest sample_names sample_names-NamesLaws hosted aliases two_zones (dev ∷ [])
      aliases_read made www refl dev found
