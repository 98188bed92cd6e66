-- ===== src/Dns/Rdatasets/Sample.antt =====
-- A concrete `Rdatasets`: a record is its text, and every SOA record has the minimum 300.
use mathlib.Core.List.{Memᴰ}
use a_healthy_dns.Base.{
  ◌≡◌, ◌⊎◌, ◌↔◌, Bool, any, refl, sym, subst, inl, inr, true, false, Bool-cases, List, [], ◌∷◌,
  ◌++◌, map, arith, ◌==◌, if◌then◌else◌, ok,
}
use a_healthy_dns.Base.Int.{pos}
use a_healthy_dns.Base.Set.{contains}
use a_healthy_dns.Base.Text.{Text, text_eq, text_eq→eq}
use a_healthy_dns.Dns.Rdatasets.{IsDistinct, Rdatasets, RdatasetsLaws, soa_type}

-- The texts without those that have been seen.
abbrev fresh : List Text → List Text → List Text
fresh seen [] = []
fresh seen (t ∷ ts) =
    if contains text_eq t seen then fresh seen ts else t ∷ fresh (seen ++ t ∷ []) ts

abbrev pub sample_rdatasets : Rdatasets
sample_rdatasets = record {
  Rdata = Text;
  rdata_eq = text_eq;
  is_singleton = λ rdtype. rdtype == soa_type;
  add = λ rdtype ds d.
      if rdtype == soa_type then d ∷ [] else if contains text_eq d ds then ds else ds ++ d ∷ [];
  from_text = λ rdclass rdtype ttl texts.
      ok (record { rdclass = rdclass; rdtype = rdtype; ttl = ttl; items = fresh [] texts });
  minimum = λ d. pos 300;
}

map_id : (ts : List Text) → map (λ t. t) ts ≡ ts
map_id [] = refl
map_id (t ∷ ts) = rw (map_id ts) refl

fresh-IsDistinct : (seen ts : List Text) → IsDistinct text_eq seen (fresh seen ts)
fresh-IsDistinct seen [] = tt
fresh-IsDistinct seen (t ∷ ts) = elim (Bool-cases (contains text_eq t seen)) [
  | inl k ↦ rw k (fresh-IsDistinct seen ts)
  | inr k ↦ rw k (k, fresh-IsDistinct (seen ++ t ∷ []) ts)
]

-- What a step of `fresh` gives, in both cases.
fresh_cases :
    (seen ts : List Text) (t : Text)
    → ((contains text_eq t seen ≡ true) × (fresh seen (t ∷ ts) ≡ fresh seen ts))
      ⊎ ((contains text_eq t seen ≡ false) × (fresh seen (t ∷ ts) ≡ t ∷ fresh (seen ++ t ∷ []) ts))
fresh_cases seen ts t = elim (Bool-cases (contains text_eq t seen)) [
  | inl k ↦ inl (k, ground arith)
  | inr k ↦ inr (k, ground arith)
]

of_fresh : (d : Text) (seen ts : List Text) → Memᴰ d (fresh seen ts) → Memᴰ d ts
of_fresh d seen [] m = m
of_fresh d seen (t ∷ ts) m = elim (fresh_cases seen ts t) [
  | inl (k, e) ↦ Memᴰ.tail (of_fresh d seen ts (subst (Memᴰ d) e m))
  | inr (k, e) ↦ first (of_fresh d (seen ++ t ∷ []) ts) (subst (Memᴰ d) e m)
]
  where
    first : {us : List Text} → (Memᴰ d us → Memᴰ d ts) → Memᴰ d (t ∷ us) → Memᴰ d (t ∷ ts)
    first f (Memᴰ.head e) = Memᴰ.head e
    first f (Memᴰ.tail n) = Memᴰ.tail (f n)

any_last :
    (p : Text → Bool) (ts : List Text) (t : Text)
    → any p (ts ++ t ∷ []) ≡ true
    → (p t ≡ true) ⊎ (any p ts ≡ true)
any_last p [] t h = inl (ground arith)
any_last p (u ∷ us) t h = elim (Bool-cases (p u)) [
  | inl e ↦ inr (ground arith)
  | inr e ↦ elim (any_last p us t (ground arith)) [ inl k ↦ inl k | inr k ↦ inr (ground arith) ]
]

-- A text that has not been seen stays.
to_fresh :
    (d : Text) (seen ts : List Text)
    → Memᴰ d ts
    → (contains text_eq d seen ≡ true) ⊎ Memᴰ d (fresh seen ts)
to_fresh d seen [] m = inr m
to_fresh d seen (t ∷ ts) (Memᴰ.head e) = elim (fresh_cases seen ts t) [
  | inl (k, same) ↦ inl (rw e k)
  | inr (k, same) ↦ inr (subst (Memᴰ d) (sym same) (Memᴰ.head e))
]
to_fresh d seen (t ∷ ts) (Memᴰ.tail n) = elim (fresh_cases seen ts t) [
  | inl (k, same) ↦ elim (to_fresh d seen ts n) [
    | inl h ↦ inl h
    | inr h ↦ inr (subst (Memᴰ d) (sym same) h)
  ]
  | inr (k, same) ↦ elim (to_fresh d (seen ++ t ∷ []) ts n) [
    | inl h ↦ elim (any_last (λ x. text_eq x d) seen t h) [
      | inl e ↦ inr (subst (Memᴰ d) (sym same) (Memᴰ.head (sym (text_eq→eq t d e))))
      | inr e ↦ inl e
    ]
    | inr h ↦ inr (subst (Memᴰ d) (sym same) (Memᴰ.tail h))
  ]
]

fresh-mem_iff : (d : Text) (ts : List Text) → Memᴰ d (fresh [] ts) ↔ Memᴰ d ts
fresh-mem_iff d ts = (of_fresh d [] ts, λ m. elim (to_fresh d [] ts m) [ inl h ↦ cc | inr h ↦ h ])

pub sample_rdatasets-RdatasetsLaws : RdatasetsLaws sample_rdatasets
sample_rdatasets-RdatasetsLaws = record {
  add_first = λ rdtype d. ground arith;
  add_next = λ rdtype ds d h k. ground arith;
  a_rdata = λ t. t;
  from_text_type = λ rdclass rdtype ttl texts s e. ground arith;
  from_text_class = λ rdclass rdtype ttl texts s e. ground arith;
  from_text_a = λ ttl ips h. (
    record { rdclass = 1; rdtype = 1; ttl = ttl; items = fresh [] ips },
    refl,
    refl,
    refl,
    refl,
    record { distinct = fresh-IsDistinct [] ips; singleton = inl refl },
    λ d. rw (map_id ips) (fresh-mem_iff d ips),
  );
}
