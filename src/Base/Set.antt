-- ===== src/Base/Set.antt =====
-- Python's `frozenset` as a list without equal elements. Equality is the class's `__eq__`, which
-- may be coarser than identity; the order of the list stands for the order of iteration.
pub mod Laws
pub mod Elements
use mathlib.Core.Bool.{Bool, not, ◌&&◌}
use mathlib.Core.List.{List, [], ◌∷◌}
use a_healthy_dns.Base.Lists.{any, all, select}

module _ {ℓ} {A : Type ℓ} (eq : A → A → Bool) where
  -- `a in xs`
  abbrev pub contains : A → List A → Bool
  contains a xs = any (λ x. eq x a) xs

  -- `frozenset(xs)`: of equal elements the first stays.
  unfoldable pub frozenset : List A → List A
  frozenset [] = []
  frozenset (x ∷ xs) = x ∷ select (λ y. not (eq x y)) (frozenset xs)

  abbrev is_subset : List A → List A → Bool
  is_subset xs ys = all (λ x. contains x ys) xs

  -- `xs == ys` on sets
  unfoldable pub set_eq : List A → List A → Bool
  set_eq xs ys = is_subset xs ys && is_subset ys xs
