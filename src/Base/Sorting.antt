-- ===== src/Base/Sorting.antt =====
-- Python's `sorted`: a stable sort by a test for "at most".
pub mod Laws
use mathlib.Core.Bool.{Bool, true, false}
use mathlib.Core.List.{List, [], ◌∷◌}

module _ {ℓ} {A : Type ℓ} (le : A → A → Bool) where
  pub insert : A → List A → List A
  insert x [] = x ∷ []
  insert x (y ∷ ys) = elim (le x y) [ true ↦ x ∷ y ∷ ys | false ↦ y ∷ insert x ys ]

  unfoldable pub sorted : List A → List A
  unfolding insert
  sorted [] = []
  sorted (x ∷ xs) = insert x (sorted xs)
