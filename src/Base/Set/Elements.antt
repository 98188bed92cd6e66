-- ===== src/Base/Set/Elements.antt =====
-- The elements of a `frozenset`: those it was made from, and no two that are equal.
use mathlib.Core.Path.{◌≡◌, sym, subst}
use mathlib.Core.Logic.{◌≢◌, inl, inr}
use mathlib.Core.Bool.{Bool, true, false, not}
use mathlib.Core.List.{List, [], ◌∷◌, Memᴰ}
use native.Mathlib.Omega.{arith}
use a_healthy_dns.Base.Tests.{Bool-cases}
use a_healthy_dns.Base.Lists.{All-of_mem, All-mem, IsOrdered, select, mem-select_iff}
use a_healthy_dns.Base.Set.{frozenset}

module _ {A : Type 0} (R : A → A → Type 0) (p : A → Bool) where
  select-IsOrdered : (xs : List A) → IsOrdered R xs → IsOrdered R (select p xs)
  select-IsOrdered [] h = tt
  select-IsOrdered (x ∷ xs) h =
      let rest = select-IsOrdered xs h.1 in
      elim (Bool-cases (p x)) [
        | inl e ↦ subst (IsOrdered R) (sym (kept e)) (
          All-of_mem (R x) (select p xs)
              (λ a m. All-mem (R x) xs h.0 ((mem-select_iff p a xs).0 m).0),
          rest,
        )
        | inr e ↦ subst (IsOrdered R) (sym (left_out e)) rest
      ]
    where
      kept : p x ≡ true → select p (x ∷ xs) ≡ x ∷ select p xs
      kept e = ground arith

      left_out : p x ≡ false → select p (x ∷ xs) ≡ select p xs
      left_out e = ground arith

module _ {A : Type 0} (eq : A → A → Bool) where
  pub frozenset-IsOrdered : (xs : List A) → IsOrdered (λ a b. eq a b ≡ false) (frozenset eq xs)
  unfolding frozenset
  frozenset-IsOrdered [] = tt
  frozenset-IsOrdered (x ∷ xs) = (
    All-of_mem (λ b. eq x b ≡ false) (select (λ y. not (eq x y)) (frozenset eq xs))
        (λ a m.
          let k = ((mem-select_iff (λ y. not (eq x y)) a (frozenset eq xs)).0 m).1 in ground arith),
    select-IsOrdered (λ a b. eq a b ≡ false) (λ y. not (eq x y)) (frozenset eq xs)
        (frozenset-IsOrdered xs),
  )

  pub mem-of_frozenset : (a : A) (xs : List A) → Memᴰ a (frozenset eq xs) → Memᴰ a xs
  unfolding frozenset
  mem-of_frozenset a [] m = m
  mem-of_frozenset a (x ∷ xs) (Memᴰ.head e) = Memᴰ.head e
  mem-of_frozenset a (x ∷ xs) (Memᴰ.tail m) =
      Memᴰ.tail
        (mem-of_frozenset a xs ((mem-select_iff (λ y. not (eq x y)) a (frozenset eq xs)).0 m).0)

  pub frozenset-ne-nil : (xs : List A) → xs ≢ [] → frozenset eq xs ≢ []
  unfolding frozenset
  frozenset-ne-nil [] h e = h e
  frozenset-ne-nil (x ∷ xs) h e = cc
