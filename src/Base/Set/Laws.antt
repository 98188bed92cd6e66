-- ===== src/Base/Set/Laws.antt =====
-- A `frozenset` holds what it was made from, once; equality of sets is equality of membership.
use mathlib.Core.Path.{◌≡◌, refl}
use mathlib.Core.Logic.{◌↔◌, inl, inr}
use mathlib.Core.Bool.{Bool, true, false, not}
use mathlib.Core.List.{List, [], ◌∷◌}
use native.Mathlib.Omega.{arith}
use a_healthy_dns.Base.Tests.{Bool-cases, &&_iff}
use a_healthy_dns.Base.Lists.{any, select}
use a_healthy_dns.Base.Set.{contains, frozenset, is_subset, set_eq}

pub record IsEquality {ℓ} {A : Type ℓ} (eq : A → A → Bool) : Type ℓ where
  pub eq_refl : (a : A) → eq a a ≡ true
  pub eq_sym : (a b : A) → eq a b ≡ true → eq b a ≡ true
  pub eq_trans : (a b c : A) → eq a b ≡ true → eq b c ≡ true → eq a c ≡ true

module _ {ℓ} {A : Type ℓ} (eq : A → A → Bool) (laws : IsEquality eq) where
  contains-select :
      (x a : A) (zs : List A)
      → eq x a ≡ false
      → contains eq a (select (λ y. not (eq x y)) zs) ≡ contains eq a zs
  contains-select x a [] h = refl
  contains-select x a (z ∷ zs) h = ground (arith, contains-select x a zs h, laws.eq_trans x z a)

  -- Making a set neither adds nor loses an element.
  pub contains-frozenset :
      (a : A) (xs : List A) → contains eq a (frozenset eq xs) ≡ contains eq a xs
  unfolding frozenset
  contains-frozenset a [] = refl
  contains-frozenset a (x ∷ xs) =
      ground (arith, contains-frozenset a xs, contains-select x a (frozenset eq xs))

  contains-eq :
      (a b : A) (xs : List A) → eq a b ≡ true → contains eq a xs ≡ true → contains eq b xs ≡ true
  contains-eq a b [] e h = cc
  contains-eq a b (x ∷ xs) e h = ground (arith, laws.eq_trans x a b, contains-eq a b xs e)

  subset_to :
      (xs ys : List A) (a : A)
      → is_subset eq xs ys ≡ true
      → contains eq a xs ≡ true
      → contains eq a ys ≡ true
  subset_to [] ys a h k = cc
  subset_to (x ∷ xs) ys a h k =
      let e = (&&_iff (contains eq x ys) (is_subset eq xs ys)).0 h in
      elim (Bool-cases (eq x a)) [
        | inl same ↦ contains-eq x a ys same e.0
        | inr other ↦ subset_to xs ys a e.1 (ground arith)
      ]

  subset_from :
      (xs ys : List A)
      → ((a : A) → contains eq a xs ≡ true → contains eq a ys ≡ true)
      → is_subset eq xs ys ≡ true
  subset_from [] ys h = refl
  subset_from (x ∷ xs) ys h =
      (&&_iff (contains eq x ys) (is_subset eq xs ys)).1
        (h x (rw (laws.eq_refl x)), subset_from xs ys (λ a k. h a (ground arith)))

  -- Two sets are equal exactly when they have the same elements.
  pub set_eq_iff :
      (xs ys : List A)
      → (set_eq eq xs ys ≡ true) ↔ ((a : A) → (contains eq a xs ≡ true) ↔ (contains eq a ys ≡ true))
  unfolding set_eq
  set_eq_iff xs ys =
      let e = &&_iff (is_subset eq xs ys) (is_subset eq ys xs) in
      (
        λ h a. (subset_to xs ys a (e.0 h).0, subset_to ys xs a (e.0 h).1),
        λ h. e.1 (subset_from xs ys (λ a. (h a).0), subset_from ys xs (λ a. (h a).1)),
      )

  module _ (p : A → Bool) (respects : (a b : A) → eq a b ≡ true → p a ≡ true → p b ≡ true) where
    any-select :
        (x : A) (zs : List A) → p x ≡ false → any p (select (λ y. not (eq x y)) zs) ≡ any p zs
    any-select x [] h = refl
    any-select x (z ∷ zs) h = ground (arith, any-select x zs h, respects z x, laws.eq_sym x z)

    -- A test that does not tell equal elements apart holds in the set exactly when in the list.
    pub any-frozenset : (xs : List A) → any p (frozenset eq xs) ≡ any p xs
    unfolding frozenset
    any-frozenset [] = refl
    any-frozenset (x ∷ xs) = ground (arith, any-frozenset xs, any-select x (frozenset eq xs))
