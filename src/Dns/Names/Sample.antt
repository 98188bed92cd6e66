-- ===== src/Dns/Names/Sample.antt =====
-- A concrete `Names`: labels and whether the root is reached, compared letter by letter.
use a_healthy_dns.Base.{
  suc, ◌≤◌, ℕ, ◌+◌, ◌-◌, ◌≡◌, refl, sym, ◌∙◌, inl, inr, Bool-cases, ap, subst, Bool, true, false,
  ◌&&◌, ◌||◌, some, List, [], ◌∷◌, ◌++◌, arith, take, length, if◌then◌else◌, bool_eq,
}
use a_healthy_dns.Base.Text.{Text, split, join, text_eq, text_eq→eq, text_eq_refl}
use a_healthy_dns.Dns.Names.{Names, NamesLaws}

pub record Labels : Type 0 where
  pub labels : List Text
  pub absolute : Bool

abbrev labels_eq : List Text → List Text → Bool
labels_eq [] [] = true
labels_eq [] (y ∷ ys) = false
labels_eq (x ∷ xs) [] = false
labels_eq (x ∷ xs) (y ∷ ys) = text_eq x y && labels_eq xs ys

abbrev ends_with : List Text → List Text → Bool
ends_with [] ys = labels_eq [] ys
ends_with (x ∷ xs) ys = labels_eq (x ∷ xs) ys || ends_with xs ys

abbrev labels_below : Labels → Labels → Bool
labels_below a b = bool_eq a.absolute b.absolute && ends_with a.labels b.labels

abbrev pub sample_names : Names
sample_names = record {
  Name = Labels;
  name_eq = λ a b. bool_eq a.absolute b.absolute && labels_eq a.labels b.labels;
  label_count = λ a. length a.labels + (if a.absolute then 1 else 0);
  to_text = λ a. join b'.' a.labels;
  to_host = λ a. join b'.' a.labels;
  from_text = λ t origin.
      some (record { labels = split b'.' t ++ origin.labels; absolute = origin.absolute });
  root = record { labels = []; absolute = true };
  empty = record { labels = []; absolute = false };
  is_absolute = λ a. a.absolute;
  is_subdomain = labels_below;
  relativize = λ a b.
      if labels_below a b
      then record { labels = take (length a.labels - length b.labels) a.labels; absolute = false }
      else a;
}

labels_eq→eq : (xs ys : List Text) → labels_eq xs ys ≡ true → xs ≡ ys
labels_eq→eq [] [] h = refl
labels_eq→eq [] (y ∷ ys) h = cc
labels_eq→eq (x ∷ xs) [] h = cc
labels_eq→eq (x ∷ xs) (y ∷ ys) h = ground (arith, text_eq→eq x y, labels_eq→eq xs ys)

labels_eq_refl : (xs : List Text) → labels_eq xs xs ≡ true
labels_eq_refl [] = refl
labels_eq_refl (x ∷ xs) = rw (text_eq_refl x) (labels_eq_refl xs)

pub name_eq→eq : (a b : Labels) → sample_names.name_eq a b ≡ true → a ≡ b
name_eq→eq a b h = ground (arith, labels_eq→eq a.labels b.labels)

pub name_eq_refl : (a : Labels) → sample_names.name_eq a a ≡ true
name_eq_refl a = ground (arith, labels_eq_refl a.labels)

pub sample_names-NamesLaws : NamesLaws sample_names
sample_names-NamesLaws = record {
  equality = record {
    eq_refl = name_eq_refl;
    eq_sym = λ a b h. rw (name_eq→eq a b h) (name_eq_refl b);
    eq_trans = λ a b c h k. rw (name_eq→eq a b h) k;
  };
  count_eq = λ a b h. ap sample_names.label_count (name_eq→eq a b h);
  subdomain_eq =
      λ a b c h k. subst (λ z. sample_names.is_subdomain a z ≡ true) (name_eq→eq b c h) k;
}

ends_with_self : (ys : List Text) → ends_with ys ys ≡ true
ends_with_self [] = refl
ends_with_self (y ∷ ys) = rw (labels_eq_refl (y ∷ ys)) refl

ends_with-append : (xs ys : List Text) → ends_with (xs ++ ys) ys ≡ true
ends_with-append [] ys = ends_with_self ys
ends_with-append (x ∷ xs) ys = ground (arith, ends_with-append xs ys)

bool_eq_refl : (b : Bool) → bool_eq b b ≡ true
bool_eq_refl true = refl
bool_eq_refl false = refl

-- A name that is read at an origin lies below it.
pub from_text_below :
    (t : Text) (origin n : Labels)
    → sample_names.from_text t origin ≡ some n
    → sample_names.is_subdomain n origin ≡ true
from_text_below t origin n e =
    let same : record { labels = split b'.' t ++ origin.labels; absolute = origin.absolute } ≡ n =
      ground arith in
    subst (λ m. labels_below m origin ≡ true) same
      (rw (bool_eq_refl origin.absolute) (ends_with-append (split b'.' t) origin.labels))

ends_with_longer : (xs ys : List Text) → ends_with xs ys ≡ true → length ys ≤ length xs
ends_with_longer [] ys h = ground (arith, labels_eq→eq [] ys)
ends_with_longer (x ∷ xs) ys h = elim (Bool-cases (labels_eq (x ∷ xs) ys)) [
  | inl e ↦ let same = ap length (labels_eq→eq (x ∷ xs) ys e) in omega (arith, same)
  | inr e ↦ omega (arith, ends_with_longer xs ys (ground arith))
]

take_all : (n : ℕ) (xs : List Text) → n ≡ 0 → take n xs ≡ []
take_all n xs h = rw h refl

-- What ends with labels is the rest before them.
ends_with_rest :
    (xs ys : List Text) → ends_with xs ys ≡ true → take (length xs - length ys) xs ++ ys ≡ xs
ends_with_rest [] ys h =
    let same = labels_eq→eq [] ys (ground arith) in
    subst (λ z. take (0 - length z) [] ++ z ≡ []) same refl
ends_with_rest (x ∷ xs) ys h = elim (Bool-cases (labels_eq (x ∷ xs) ys)) [
  | inl e ↦
      let same = labels_eq→eq (x ∷ xs) ys e in
      let none_left : length (x ∷ xs) - length ys ≡ 0 =
        let l = ap length same in omega (arith, l) in
      ap (λ zs. zs ++ ys) (take_all _ (x ∷ xs) none_left) ∙ sym same
  | inr e ↦
      let rest : ends_with xs ys ≡ true = ground arith in
      let longer = ends_with_longer xs ys rest in
      let one_more : length (x ∷ xs) - length ys ≡ suc (length xs - length ys) =
        omega (arith, longer) in
      ap (λ n. take n (x ∷ xs) ++ ys) one_more ∙ ap (◌∷◌ x) (ends_with_rest xs ys rest)
]

relative_labels :
    (a o : Labels)
    → labels_below a o ≡ true
    → (sample_names.relativize a o).labels ++ o.labels ≡ a.labels
relative_labels a o h = rw h (ends_with_rest a.labels o.labels (ground arith))

below_absolute : (a o : Labels) → labels_below a o ≡ true → a.absolute ≡ o.absolute
below_absolute a o h = ground arith

-- Names below an origin are told apart by what they are relative to it.
pub relative_injective :
    (a b o : Labels)
    → sample_names.is_subdomain a o ≡ true
    → sample_names.is_subdomain b o ≡ true
    → sample_names.name_eq (sample_names.relativize a o) (sample_names.relativize b o) ≡ true
    → sample_names.name_eq a b ≡ true
relative_injective a b o ha hb e =
    let same =
      ap (λ (n : Labels). n.labels)
        (name_eq→eq (sample_names.relativize a o) (sample_names.relativize b o) e) in
    let labels_same : a.labels ≡ b.labels =
      sym (relative_labels a o ha) ∙ ap (λ ls. ls ++ o.labels) same ∙ relative_labels b o hb in
    let absolute_same : a.absolute ≡ b.absolute =
      below_absolute a o ha ∙ sym (below_absolute b o hb) in
    rw (labels_same, absolute_same) (name_eq_refl b)
