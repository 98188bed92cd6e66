-- ===== src/Base/Sorting/Laws.antt =====
-- `sorted` keeps the elements and puts them in order.
use mathlib.Core.Path.{◌≡◌, refl, sym, subst}
use mathlib.Core.Logic.{inl, inr}
use mathlib.Core.Bool.{Bool, true, false}
use mathlib.Core.List.{List, [], ◌∷◌}
use native.Mathlib.Omega.{arith}
use a_healthy_dns.Base.Tests.{Bool-cases}
use a_healthy_dns.Base.Lists.{any, All, All-map, IsOrdered}
use a_healthy_dns.Base.Sorting.{insert, sorted}

module _ {ℓ} {A : Type ℓ} (le : A → A → Bool) where
  any-insert : (p : A → Bool) (x : A) (ys : List A) → any p (insert le x ys) ≡ any p (x ∷ ys)
  unfolding insert
  any-insert p x [] = refl
  any-insert p x (y ∷ ys) = ground (arith, any-insert p x ys)

  -- A test holds of some element of the sorted list exactly when it does of the list.
  pub any-sorted : (p : A → Bool) (xs : List A) → any p (sorted le xs) ≡ any p xs
  unfolding sorted
  any-sorted p [] = refl
  any-sorted p (x ∷ xs) = ground (arith, any-insert p x (sorted le xs), any-sorted p xs)

module _ {ℓ} {A : Type ℓ} (le : A → A → Bool) (R : A → A → Type 0)
    (of_le : (a b : A) → le a b ≡ true → R a b) (of_not_le : (a b : A) → le a b ≡ false → R b a)
    (trans : (a b c : A) → R a b → R b c → R a c) where
  insert_before : (x y : A) (ys : List A) → le x y ≡ true → insert le x (y ∷ ys) ≡ x ∷ y ∷ ys
  unfolding insert
  insert_before x y ys e = rw (e, insert)

  insert_behind :
      (x y : A) (ys : List A) → le x y ≡ false → insert le x (y ∷ ys) ≡ y ∷ insert le x ys
  unfolding insert
  insert_behind x y ys e = rw (e, insert)

  All-insert : (P : A → Type 0) (x : A) (ys : List A) → P x → All P ys → All P (insert le x ys)
  All-insert P x [] p h = unfold insert in (p, tt)
  All-insert P x (y ∷ ys) p h = elim (Bool-cases (le x y)) [
    | inl e ↦ subst (All P) (sym (insert_before x y ys e)) (p, h)
    | inr e ↦ subst (All P) (sym (insert_behind x y ys e)) (h.0, All-insert P x ys p h.1)
  ]

  insert-IsOrdered : (x : A) (ys : List A) → IsOrdered R ys → IsOrdered R (insert le x ys)
  insert-IsOrdered x [] h = unfold insert in (tt, tt)
  insert-IsOrdered x (y ∷ ys) h = elim (Bool-cases (le x y)) [
    | inl e ↦
        subst (IsOrdered R) (sym (insert_before x y ys e))
          ((of_le x y e, All-map (λ z (k : R y z). trans x y z (of_le x y e) k) ys h.0), h)
    | inr e ↦
        subst (IsOrdered R) (sym (insert_behind x y ys e))
          (All-insert (R y) x ys (of_not_le x y e) h.0, insert-IsOrdered x ys h.1)
  ]

  -- `sorted` orders a list by any transitive relation that the test decides one way or the other.
  pub sorted-IsOrdered : (xs : List A) → IsOrdered R (sorted le xs)
  unfolding sorted
  sorted-IsOrdered [] = tt
  sorted-IsOrdered (x ∷ xs) = insert-IsOrdered x (sorted le xs) (sorted-IsOrdered xs)
