-- ===== src/Base/Text/Parts.antt =====
-- Laws of `split` and `join`.
use Prim.Native.Nat.{ℕ, suc, ◌≤◌}
use mathlib.Core.Path.{◌≡◌, refl, ap, ◌∙◌}
use mathlib.Core.Logic.{◌≢◌, inl, inr}
use mathlib.Core.List.{List, [], ◌∷◌, ◌++◌}
use native.Mathlib.Omega.{arith}
use a_healthy_dns.Base.Tests.{◌==◌, Bool-cases}
use a_healthy_dns.Base.Lists.{All, All-append, length}
use a_healthy_dns.Base.Text.{Text, push_front, split, join, Lacks}

push_front-ne-nil : (c : ℕ) (ps : List Text) → push_front c ps ≢ []
push_front-ne-nil c [] h = cc
push_front-ne-nil c (p ∷ ps) h = cc

pub split-ne-nil : (sep : ℕ) (s : Text) → split sep s ≢ []
unfolding split
split-ne-nil sep [] h = cc
split-ne-nil sep (c ∷ s) h = ground (arith, push_front-ne-nil c (split sep s))

join-push_front :
    (sep c : ℕ) (ps : List Text) → ps ≢ [] → join sep (push_front c ps) ≡ c ∷ join sep ps
unfolding join
join-push_front sep c [] h = absurd (h refl)
join-push_front sep c (p ∷ []) h = refl
join-push_front sep c (p ∷ (q ∷ ps)) h = refl

join-cons_nil : (sep : ℕ) (ps : List Text) → ps ≢ [] → join sep ([] ∷ ps) ≡ sep ∷ join sep ps
unfolding join
join-cons_nil sep [] h = absurd (h refl)
join-cons_nil sep (p ∷ ps) h = refl

-- Joining the parts of a split gives the text back.
pub join-split : (sep : ℕ) (s : Text) → join sep (split sep s) ≡ s
unfolding split
join-split sep [] = unfold join in refl
join-split sep (c ∷ s) = ground (
  arith,
  join-split sep s,
  join-push_front sep c (split sep s) (split-ne-nil sep s),
  join-cons_nil sep (split sep s) (split-ne-nil sep s),
)

split-single : (sep : ℕ) (p : Text) → Lacks sep p → split sep p ≡ p ∷ []
unfolding split
split-single sep [] h = refl
split-single sep (c ∷ p) h = ground (arith, split-single sep p h.1)

split-append :
    (sep : ℕ) (p rest : Text) → Lacks sep p → split sep (p ++ (sep ∷ rest)) ≡ p ∷ split sep rest
unfolding split
split-append sep [] rest h = ground arith
split-append sep (c ∷ p) rest h = ground (arith, split-append sep p rest h.1)

-- Splitting a join gives the parts back, if there is a part and none holds the separator.
pub split-join :
    (sep : ℕ) (ps : List Text) → ps ≢ [] → All (Lacks sep) ps → split sep (join sep ps) ≡ ps
unfolding join
split-join sep [] h k = absurd (h refl)
split-join sep (p ∷ []) h k = split-single sep p k.0
split-join sep (p ∷ (q ∷ ps)) h k =
    split-append sep p (join sep (q ∷ ps)) k.0 ∙ ap (◌∷◌ p) (split-join sep (q ∷ ps) (λ e. cc) k.1)

module _ (P : ℕ → Type 0) where
  push_front-All : (c : ℕ) (ps : List Text) → P c → All (All P) ps → All (All P) (push_front c ps)
  push_front-All c [] p h = ((p, tt), tt)
  push_front-All c (q ∷ ps) p h = ((p, h.0), h.1)

  -- What holds of every character holds of those of each part.
  pub split-All : (sep : ℕ) (s : Text) → All P s → All (All P) (split sep s)
  unfolding split
  split-All sep [] h = (tt, tt)
  split-All sep (c ∷ s) h = elim (Bool-cases (c == sep)) [
    | inl e ↦ rw e (tt, split-All sep s h.1)
    | inr e ↦ rw e (push_front-All c (split sep s) h.0 (split-All sep s h.1))
  ]

module _ (P : ℕ → Type 0) where
  pub append-All : (s t : Text) → All P (s ++ t) → All P s × All P t
  append-All [] t h = (tt, h)
  append-All (c ∷ s) t h = let ih = append-All s t h.1 in ((h.0, ih.0), ih.1)

  -- What holds of every character of a join holds of those of each part.
  pub join-All : (sep : ℕ) (ps : List Text) → All P (join sep ps) → All (All P) ps
  unfolding join
  join-All sep [] h = tt
  join-All sep (p ∷ []) h = (h, tt)
  join-All sep (p ∷ (q ∷ ps)) h =
      let k = append-All p (sep ∷ join sep (q ∷ ps)) h in (k.0, join-All sep (q ∷ ps) k.1.1)

  pub All-join : (sep : ℕ) (ps : List Text) → P sep → All (All P) ps → All P (join sep ps)
  unfolding join
  All-join sep [] d h = tt
  All-join sep (p ∷ []) d h = h.0
  All-join sep (p ∷ (q ∷ ps)) d h =
      All-append P p (sep ∷ join sep (q ∷ ps)) h.0 (d, All-join sep (q ∷ ps) d h.1)

abbrev pub Within : ℕ → Text → Type 0
Within n s = length s ≤ n

Within-suc : (n : ℕ) (ps : List Text) → All (Within n) ps → All (Within (suc n)) ps
Within-suc n [] h = tt
Within-suc n (p ∷ ps) h = (omega arith, Within-suc n ps h.1)

push_front-Within :
    (n c : ℕ) (ps : List Text) → All (Within n) ps → All (Within (suc n)) (push_front c ps)
push_front-Within n c [] h = (omega arith, tt)
push_front-Within n c (p ∷ ps) h = (omega arith, Within-suc n ps h.1)

-- No part is longer than the text.
pub split-Within : (sep : ℕ) (s : Text) → All (Within (length s)) (split sep s)
unfolding split
split-Within sep [] = (omega arith, tt)
split-Within sep (c ∷ s) = elim (Bool-cases (c == sep)) [
  | inl e ↦ rw e (omega arith, Within-suc (length s) (split sep s) (split-Within sep s))
  | inr e ↦ rw e (push_front-Within (length s) c (split sep s) (split-Within sep s))
]

-- No part holds the separator.
pub split-Lacks : (sep : ℕ) (s : Text) → All (Lacks sep) (split sep s)
unfolding split
split-Lacks sep [] = (tt, tt)
split-Lacks sep (c ∷ s) = elim (Bool-cases (c == sep)) [
  | inl e ↦ rw e (tt, split-Lacks sep s)
  | inr e ↦ rw e (keep (split sep s) (split-Lacks sep s) (ground arith))
]
  where
    keep : (ps : List Text) → All (Lacks sep) ps → c ≢ sep → All (Lacks sep) (push_front c ps)
    keep [] h n = ((n, tt), tt)
    keep (p ∷ ps) h n = ((n, h.0), h.1)
