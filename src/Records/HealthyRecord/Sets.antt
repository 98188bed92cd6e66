-- ===== src/Records/HealthyRecord/Sets.antt =====
-- The addresses of a record as a set, and the A record set that publishes the healthy ones.
use mathlib.Core.List.{Memᴰ}
use mathlib.Core.List.Memᴰ
use a_healthy_dns.Base.{
  ◌≡◌, ◌≢◌, ◌↔◌, ◌⊎◌, refl, sym, ap, subst, ◌∙◌, inl, inr, Bool, true, false, none, some, List, [],
  ◌∷◌, map, arith, select, All, All-map, any_of_mem, mem_of_any, mem-select_iff, if◌then◌else◌,
  Bool-cases, ok,
}
use a_healthy_dns.Base.Int.{ℤ}
use a_healthy_dns.Base.Set.{contains, frozenset, set_eq}
use a_healthy_dns.Base.Set.Laws.{IsEquality, contains-frozenset, set_eq_iff}
use a_healthy_dns.Base.Text.{Text}
use a_healthy_dns.Dns.Names.{Names}
use a_healthy_dns.Dns.Rdatasets.{Rdatasets, RdatasetsLaws, IsRecordSet, Rdataset, in_class, a_type}
use a_healthy_dns.Tools.Ip.Address.{IsCanonical}
use a_healthy_dns.Records.HealthyIp.{AHealthyIp, healthy_ip_eq}
use a_healthy_dns.Records.HealthyIp.Status.{IsWellFormed, healthy_ip_eq→eq, healthy_ip_eq_refl}
use a_healthy_dns.Records.Time.{calculate_a_ttl}
use a_healthy_dns.Records.HealthyRecord.{
  AHealthyRecord, make_healthy_record, updated_ips, make_a_record,
}

pub healthy_ip-IsEquality : IsEquality healthy_ip_eq
healthy_ip-IsEquality = record {
  eq_refl = healthy_ip_eq_refl;
  eq_sym = λ a b h. rw (healthy_ip_eq→eq a b h) (healthy_ip_eq_refl b);
  eq_trans = λ a b c h k. rw (healthy_ip_eq→eq a b h) k;
}

-- Membership by `__eq__` is membership.
pub contains_iff :
    (x : AHealthyIp) (xs : List AHealthyIp) → (contains healthy_ip_eq x xs ≡ true) ↔ Memᴰ x xs
contains_iff x xs = (
  λ h.
      let (y, m, e) = mem_of_any (λ z. healthy_ip_eq z x) xs h in
      subst (λ z. Memᴰ z xs) (healthy_ip_eq→eq y x e) m,
  λ m. any_of_mem (λ z. healthy_ip_eq z x) x xs m (healthy_ip_eq_refl x),
)

pub mem-frozenset_iff :
    (x : AHealthyIp) (xs : List AHealthyIp) → Memᴰ x (frozenset healthy_ip_eq xs) ↔ Memᴰ x xs
mem-frozenset_iff x xs =
    let same = contains-frozenset healthy_ip_eq healthy_ip-IsEquality x xs in
    (
      λ m. (contains_iff x xs).0 (sym same ∙ (contains_iff x (frozenset healthy_ip_eq xs)).1 m),
      λ m. (contains_iff x (frozenset healthy_ip_eq xs)).0 (same ∙ (contains_iff x xs).1 m),
    )

-- Equal sets have the same addresses.
pub mem-of_set_eq :
    (xs ys : List AHealthyIp)
    → set_eq healthy_ip_eq xs ys ≡ true
    → (x : AHealthyIp) → Memᴰ x xs ↔ Memᴰ x ys
mem-of_set_eq xs ys e x =
    let same = (set_eq_iff healthy_ip_eq healthy_ip-IsEquality xs ys).0 e x in
    (
      λ m. (contains_iff x ys).0 (same.0 ((contains_iff x xs).1 m)),
      λ m. (contains_iff x xs).0 (same.1 ((contains_iff x ys).1 m)),
    )

-- The texts of the healthy addresses.
abbrev healthy_texts : List AHealthyIp → List Text
healthy_texts xs = map (λ x. x.ip) (select (λ x. x.is_healthy) xs)

healthy_texts_cons :
    (x : AHealthyIp) (xs : List AHealthyIp)
    → healthy_texts (x ∷ xs) ≡ (if x.is_healthy then x.ip ∷ healthy_texts xs else healthy_texts xs)
healthy_texts_cons x xs = ground arith

healthy_texts-All :
    (P : Text → Type 0) (xs : List AHealthyIp) → All (λ x. P x.ip) xs → All P (healthy_texts xs)
healthy_texts-All P [] h = tt
healthy_texts-All P (x ∷ xs) h =
    subst (All P) (sym (healthy_texts_cons x xs)) (elim (Bool-cases x.is_healthy) [
      | inl e ↦
          subst (λ b. All P (if b then x.ip ∷ healthy_texts xs else healthy_texts xs)) (sym e)
            (h.0, healthy_texts-All P xs h.1)
      | inr e ↦
          subst (λ b. All P (if b then x.ip ∷ healthy_texts xs else healthy_texts xs)) (sym e)
            (healthy_texts-All P xs h.1)
    ])

mem-healthy_texts_iff :
    {D : Type 0} (f : Text → D) (d : D) (xs : List AHealthyIp)
    → Memᴰ d (map f (healthy_texts xs))
      ↔ ((x : AHealthyIp) × Memᴰ x xs × (x.is_healthy ≡ true) × (f x.ip ≡ d))
mem-healthy_texts_iff f d xs =
    let p : AHealthyIp → Bool = λ x. x.is_healthy in
    (
      λ m.
          let (t, mt, et) = Memᴰ.of_map f (healthy_texts xs) m in
          let (x, mx, ex) = Memᴰ.of_map (λ (y : AHealthyIp). y.ip) (select p xs) mt in
          let (k, h) = (mem-select_iff p x xs).0 mx in (x, k, h, ap f ex ∙ et),
      λ (x, k, h, e).
          subst (λ z. Memᴰ z (map f (healthy_texts xs))) e
            (Memᴰ.map f (Memᴰ.map (λ (y : AHealthyIp). y.ip) ((mem-select_iff p x xs).1 (k, h)))),
    )

module _ (names : Names) where
  -- What a record with new addresses is: the old name with just the new addresses.
  abbrev HasJust : AHealthyRecord names → List AHealthyIp → AHealthyRecord names → Type 0
  HasJust r ips q =
      (q.subdomain ≡ r.subdomain) × ((x : AHealthyIp) → Memᴰ x q.healthy_ips ↔ Memᴰ x ips)

  -- A record with its addresses replaced keeps its name and has just the given addresses.
  pub updated_ips-mem :
      (r : AHealthyRecord names) (ips : List AHealthyIp)
      → ((updated_ips names r ips).subdomain ≡ r.subdomain)
        × ((x : AHealthyIp) → Memᴰ x (updated_ips names r ips).healthy_ips ↔ Memᴰ x ips)
  unfolding updated_ips
  updated_ips-mem r ips =
      elim (Bool-cases (set_eq healthy_ip_eq (frozenset healthy_ip_eq ips) r.healthy_ips)) [
        | inl e ↦
            let same : updated_ips names r ips ≡ r = ground arith in
            subst (HasJust r ips) (sym same) (refl, through e)
        | inr e ↦
            let new : updated_ips names r ips ≡ make_healthy_record names r.subdomain ips =
              ground arith in
            subst (HasJust r ips) (sym new) (refl, λ x. mem-frozenset_iff x ips)
      ]
    where
      through :
          set_eq healthy_ip_eq (frozenset healthy_ip_eq ips) r.healthy_ips ≡ true
          → (x : AHealthyIp) → Memᴰ x r.healthy_ips ↔ Memᴰ x ips
      through e x =
          let f = mem-frozenset_iff x ips in
          let g = mem-of_set_eq (frozenset healthy_ip_eq ips) r.healthy_ips e x in
          ((λ m. f.0 (g.1 m)), λ m. g.0 (f.1 m))

  abbrev pub IsWellFormedRecord : AHealthyRecord names → Type 0
  IsWellFormedRecord r = All IsWellFormed r.healthy_ips

  module _ (rdatasets : Rdatasets) (laws : RdatasetsLaws rdatasets) where
    -- A set of A records, not empty, with the given time, that has one record for each healthy
    -- address and no record twice.
    pub record Publishes (max_interval : ℤ) (r : AHealthyRecord names)
        (s : Rdataset rdatasets.Rdata) : Type 0 where
      pub rdclass : s.rdclass ≡ in_class
      pub rdtype : s.rdtype ≡ a_type
      pub ttl : s.ttl ≡ calculate_a_ttl max_interval
      pub set : IsRecordSet rdatasets s
      pub nonempty : s.items ≢ []
      pub items :
          (d : rdatasets.Rdata)
          → Memᴰ d s.items ↔ (
              (x : AHealthyIp) × Memᴰ x r.healthy_ips
              × (x.is_healthy ≡ true)
              × (laws.a_rdata x.ip ≡ d))

    no_texts : (xs : List AHealthyIp) → healthy_texts xs ≡ [] → All (λ x. x.is_healthy ≡ false) xs
    no_texts [] e = tt
    no_texts (x ∷ xs) e = (ground arith, no_texts xs (ground arith))

    -- A well-formed record with no healthy address gives no record set; any other gives the set of
    -- its healthy addresses. Nothing is raised.
    pub make_a_record-Publishes :
        (max_interval : ℤ) (r : AHealthyRecord names)
        → IsWellFormedRecord r
        → ((make_a_record names rdatasets max_interval r ≡ ok none)
            × All (λ x. x.is_healthy ≡ false) r.healthy_ips)
          ⊎ ((s : Rdataset rdatasets.Rdata) × (make_a_record names rdatasets max_interval r
                ≡ ok (some s))
              × Publishes max_interval r s)
    unfolding make_a_record
    make_a_record-Publishes max_interval r w = go (healthy_texts r.healthy_ips) refl
      where
        go :
            (ips : List Text)
            → healthy_texts r.healthy_ips ≡ ips
            → ((make_a_record names rdatasets max_interval r ≡ ok none)
                × All (λ x. x.is_healthy ≡ false) r.healthy_ips)
              ⊎ ((s : Rdataset rdatasets.Rdata) × (make_a_record names rdatasets max_interval r
                    ≡ ok (some s))
                  × Publishes max_interval r s)
        go [] e = inl (rw e, no_texts r.healthy_ips e)
        go (ip ∷ ips) e =
            let canonical =
              healthy_texts-All IsCanonical r.healthy_ips
                (All-map (λ x (k : IsWellFormed x). k.canonical) r.healthy_ips w) in
            let (s, made, c, t, l, set, m) =
              laws.from_text_a (calculate_a_ttl max_interval) (ip ∷ ips)
                (subst (All IsCanonical) e canonical) in
            inr (
              s,
              rw (e, made),
              record {
                rdclass = c;
                rdtype = t;
                ttl = l;
                set = set;
                nonempty = λ e'.
                    elim (subst (Memᴰ (laws.a_rdata ip)) e'
                      ((m (laws.a_rdata ip)).1 (Memᴰ.head refl))) [ ];
                items = λ d.
                    let i = mem-healthy_texts_iff laws.a_rdata d r.healthy_ips in
                    let m' =
                      subst (λ ts. Memᴰ d s.items ↔ Memᴰ d (map laws.a_rdata ts)) (sym e) (m d) in
                    (λ k. i.0 (m'.0 k), λ k. m'.1 (i.1 k));
              },
            )
