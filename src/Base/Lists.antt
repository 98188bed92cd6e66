-- ===== src/Base/Lists.antt =====
-- Lists measured by native numbers, and tests and predicates over their elements.
use Prim.Native.Nat.{ℕ, zero, suc, ◌+◌}
use mathlib.Core.Path.{◌≡◌, refl, sym, subst}
use mathlib.Core.Logic.{◌↔◌, inl, inr}
use mathlib.Core.Bool.{Bool, true, false, ◌&&◌, ◌||◌}
use mathlib.Core.Option.{Option, none, some}
use mathlib.Core.List.{List, [], ◌∷◌, ◌++◌, Memᴰ}
use native.Mathlib.Omega.{arith}
use a_healthy_dns.Base.Tests.{&&_iff, Bool-cases}

module _ {ℓ} {A : Type ℓ} where
  abbrev pub length : List A → ℕ
  length [] = 0
  length (x ∷ xs) = suc (length xs)

  abbrev pub all : (A → Bool) → List A → Bool
  all p [] = true
  all p (x ∷ xs) = p x && all p xs

  abbrev pub any : (A → Bool) → List A → Bool
  any p [] = false
  any p (x ∷ xs) = p x || any p xs

  -- `xs[:n]` and `xs[n:]`
  abbrev pub take : ℕ → List A → List A
  take zero xs = []
  take (suc n) [] = []
  take (suc n) (x ∷ xs) = x ∷ take n xs

  abbrev pub drop : ℕ → List A → List A
  drop zero xs = xs
  drop (suc n) [] = []
  drop (suc n) (x ∷ xs) = drop n xs

  pub length-append : (xs ys : List A) → length (xs ++ ys) ≡ length xs + length ys
  length-append [] ys = omega arith
  length-append (x ∷ xs) ys = omega (arith, length-append xs ys)

  -- `next((x for x in xs if p(x)), None)`
  abbrev pub find? : (A → Bool) → List A → Option A
  find? p [] = none
  find? p (x ∷ xs) = elim (p x) [ true ↦ some x | false ↦ find? p xs ]

  -- `[x for x in xs if p(x)]`
  abbrev pub select : (A → Bool) → List A → List A
  select p [] = []
  select p (x ∷ xs) = elim (p x) [ true ↦ x ∷ select p xs | false ↦ select p xs ]

module _ {ℓ κ} {A : Type ℓ} (P : A → Type κ) where
  abbrev pub All : List A → Type κ
  All [] = Unit
  All (x ∷ xs) = P x × All xs

  pub All-append : (xs ys : List A) → All xs → All ys → All (xs ++ ys)
  All-append [] ys _ hy = hy
  All-append (x ∷ xs) ys (px, hx) hy = (px, All-append xs ys hx hy)

  pub All-mem : {a : A} (xs : List A) → All xs → Memᴰ a xs → P a
  All-mem [] h m = elim m [ ]
  All-mem (x ∷ xs) (p, h) (Memᴰ.head e) = rw e p
  All-mem (x ∷ xs) (p, h) (Memᴰ.tail m) = All-mem xs h m

  pub All-of_mem : (xs : List A) → ((a : A) → Memᴰ a xs → P a) → All xs
  All-of_mem [] h = tt
  All-of_mem (x ∷ xs) h = (h x (Memᴰ.head refl), All-of_mem xs (λ a m. h a (Memᴰ.tail m)))

module _ {ℓ κ} {A : Type ℓ} {P : A → Type κ} {Q : A → Type κ} where
  pub All-map : (f : (a : A) → P a → Q a) (xs : List A) → All P xs → All Q xs
  All-map f [] h = tt
  All-map f (x ∷ xs) (p, h) = (f x p, All-map f xs h)

module _ {ℓ κ} {A : Type ℓ} {P : A → Type κ} (p : A → Bool) where
  -- A test that decides a predicate decides it of all elements.
  pub all_iff : ((a : A) → (p a ≡ true) ↔ P a) → (xs : List A) → (all p xs ≡ true) ↔ All P xs
  all_iff h [] = (λ e. tt, λ k. refl)
  all_iff h (x ∷ xs) =
      let ih = all_iff h xs in
      (
        λ e. ((h x).0 ((&&_iff (p x) (all p xs)).0 e).0, ih.0 ((&&_iff (p x) (all p xs)).0 e).1),
        λ k. (&&_iff (p x) (all p xs)).1 ((h x).1 k.0, ih.1 k.1),
      )

module _ {ℓ κ} {A : Type ℓ} (R : A → A → Type κ) where
  -- Each element stands in the relation to all behind it.
  abbrev pub IsOrdered : List A → Type (ℓ ⊔ κ)
  IsOrdered [] = Unit
  IsOrdered (x ∷ xs) = All (R x) xs × IsOrdered xs

module _ {ℓ} {A : Type ℓ} (p : A → Bool) where
  pub any-false_iff : (xs : List A) → (any p xs ≡ false) ↔ All (λ x. p x ≡ false) xs
  any-false_iff [] = (λ e. tt, λ k. refl)
  any-false_iff (x ∷ xs) =
      let ih = any-false_iff xs in
      (λ e. (ground arith, ih.0 (ground arith)), λ k. ground (arith, ih.1 k.1))

  pub any_of_mem : (a : A) (xs : List A) → Memᴰ a xs → p a ≡ true → any p xs ≡ true
  any_of_mem a [] m h = elim m [ ]
  any_of_mem a (x ∷ xs) (Memᴰ.head e) h = ground arith
  any_of_mem a (x ∷ xs) (Memᴰ.tail m) h = ground (arith, any_of_mem a xs m h)

  pub mem_of_any : (xs : List A) → any p xs ≡ true → (a : A) × Memᴰ a xs × (p a ≡ true)
  mem_of_any [] h = cc
  mem_of_any (x ∷ xs) h = elim (Bool-cases (p x)) [
    | inl e ↦ (x, Memᴰ.head refl, e)
    | inr e ↦ let (a, m, k) = mem_of_any xs (ground arith) in (a, Memᴰ.tail m, k)
  ]

  pub find?-eq-none_iff : (xs : List A) → (find? p xs ≡ none) ↔ (any p xs ≡ false)
  find?-eq-none_iff [] = (λ e. refl, λ e. refl)
  find?-eq-none_iff (x ∷ xs) =
      let ih = find?-eq-none_iff xs in (λ e. ground (arith, ih.0), λ e. ground (arith, ih.1))

  pub find?-mem : (xs : List A) (a : A) → find? p xs ≡ some a → Memᴰ a xs × (p a ≡ true)
  find?-mem [] a e = cc
  find?-mem (x ∷ xs) a e = elim (Bool-cases (p x)) [
    | inl h ↦ (Memᴰ.head (ground arith), ground arith)
    | inr h ↦ let (m, k) = find?-mem xs a (ground arith) in (Memᴰ.tail m, k)
  ]

  -- The first element that passes stands before every other that does.
  pub find?-first :
      (R : A → A → Type 0) (refl_R : (a : A) → R a a) (xs : List A) (a : A)
      → find? p xs ≡ some a
      → IsOrdered R xs
      → (b : A) → Memᴰ b xs
      → p b ≡ true
      → R a b
  find?-first R refl_R [] a e o b m h = cc
  find?-first R refl_R (x ∷ xs) a e o b m h = elim (Bool-cases (p x)) [
    | inl k ↦ let same : x ≡ a = ground arith in rw (← same) (here m)
    | inr k ↦ elim m [
      | Memᴰ.head e' ↦ cc
      | Memᴰ.tail m' ↦ find?-first R refl_R xs a (ground arith) o.1 b m' h
    ]
  ]
    where
      here : Memᴰ b (x ∷ xs) → R x b
      here (Memᴰ.head e') = rw e' (refl_R x)
      here (Memᴰ.tail m') = All-mem (R x) xs o.0 m'

module _ {ℓ} {A : Type ℓ} (p : A → Bool) where
  select_pass : (x : A) (xs : List A) → p x ≡ true → select p (x ∷ xs) ≡ x ∷ select p xs
  select_pass x xs e = ground arith

  select_fail : (x : A) (xs : List A) → p x ≡ false → select p (x ∷ xs) ≡ select p xs
  select_fail x xs e = ground arith

  mem_of_select : (a : A) (xs : List A) → Memᴰ a (select p xs) → Memᴰ a xs × (p a ≡ true)
  mem_of_select a [] m = elim m [ ]
  mem_of_select a (x ∷ xs) m = elim (Bool-cases (p x)) [
    | inl e ↦ kept e (mem_of_select a xs) (subst (Memᴰ a) (select_pass x xs e) m)
    | inr e ↦
        let k = mem_of_select a xs (subst (Memᴰ a) (select_fail x xs e) m) in (Memᴰ.tail k.0, k.1)
  ]
    where
      kept :
          p x ≡ true
          → (Memᴰ a (select p xs) → Memᴰ a xs × (p a ≡ true))
          → Memᴰ a (x ∷ select p xs)
          → Memᴰ a (x ∷ xs) × (p a ≡ true)
      kept e ih (Memᴰ.head h) = (Memᴰ.head h, rw h e)
      kept e ih (Memᴰ.tail t) = let k = ih t in (Memᴰ.tail k.0, k.1)

  select_of_mem : (a : A) (xs : List A) → Memᴰ a xs → p a ≡ true → Memᴰ a (select p xs)
  select_of_mem a [] m h = elim m [ ]
  select_of_mem a (x ∷ xs) (Memᴰ.head e) h =
      subst (Memᴰ a) (sym (select_pass x xs (rw (← e) h))) (Memᴰ.head e)
  select_of_mem a (x ∷ xs) (Memᴰ.tail m) h = elim (Bool-cases (p x)) [
    | inl e ↦ subst (Memᴰ a) (sym (select_pass x xs e)) (Memᴰ.tail (select_of_mem a xs m h))
    | inr e ↦ subst (Memᴰ a) (sym (select_fail x xs e)) (select_of_mem a xs m h)
  ]

  pub mem-select_iff : (a : A) (xs : List A) → Memᴰ a (select p xs) ↔ (Memᴰ a xs × (p a ≡ true))
  mem-select_iff a xs = (mem_of_select a xs, λ k. select_of_mem a xs k.0 k.1)
