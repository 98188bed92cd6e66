-- ===== src/Dns/Zones/Sample.antt =====
-- A concrete `Zones` over the sample names and records: the content is a list of record sets.
use a_healthy_dns.Base.{
  ℕ, ◌≡◌, ◌≢◌, ◌⊎◌, refl, ap, subst, ◌∙◌, inl, inr, Bool, true, false, not, ◌&&◌, Option, none,
  some, List, [], ◌∷◌, map, select, any, find?, ◌==◌, if◌then◌else◌, ok, arith, Bool-cases,
}
use a_healthy_dns.Base.Set.{frozenset}
use a_healthy_dns.Base.Set.Laws.{any-frozenset}
use a_healthy_dns.Base.Text.{Text, codes}
use a_healthy_dns.Dns.Names.Sample.{Labels, sample_names, name_eq→eq, sample_names-NamesLaws}
use a_healthy_dns.Dns.Rdatasets.{Rdataset}
use a_healthy_dns.Dns.Rdatasets.Sample.{sample_rdatasets}
use a_healthy_dns.Dns.Zones.{Zones, ZonesLaws}

-- The origin of the zones.
abbrev pub sample_origin : Labels
sample_origin = record { labels = codes "example" ∷ codes "com" ∷ []; absolute = true }

abbrev pub relative : Labels → Labels
relative name = sample_names.relativize name sample_origin

-- A record set and the name that it stands at.
pub record Entry : Type 0 where
  pub owner : Labels
  pub rdataset : Rdataset Text

abbrev at : Labels → Entry → Bool
at key e = sample_names.name_eq (relative e.owner) key

abbrev of_type : ℕ → Rdataset Text → Bool
of_type rdtype s = s.rdtype == rdtype

abbrev is_entry : Labels → ℕ → Entry → Bool
is_entry key rdtype e = at key e && of_type rdtype e.rdataset

-- The first set with the relative name and the type.
unfoldable pub lookup : List Entry → Labels → ℕ → Option (Rdataset Text)
lookup [] key rdtype = none
lookup (e ∷ es) key rdtype = if is_entry key rdtype e then some e.rdataset else lookup es key rdtype

abbrev sets_at : Labels → List Entry → List (Rdataset Text)
sets_at key es = map (λ e. e.rdataset) (select (at key) es)

-- A zone is its committed content, and a transaction is a content.
abbrev pub sample_zones : Zones sample_names sample_rdatasets
sample_zones = record {
  Zone = List Entry;
  Txn = List Entry;
  Node = List (Rdataset Text);
  rdclass = λ zone. 1;
  reader = λ zone. zone;
  commit = λ zone txn. txn;
  iterate_names = λ es. frozenset sample_names.name_eq (map (λ e. e.owner) es);
  get = λ es name rdtype. lookup es (relative name) rdtype;
  get_node =
      λ es name. if any (at (relative name)) es then some (sets_at (relative name) es) else none;
  node_truth = λ node. true;
  get_rdataset = λ node rdclass rdtype. find? (of_type rdtype) node;
  delete = λ es name. select (λ e. not (at (relative name) e)) es;
  add = λ es name s. ok (
      record { owner = name; rdataset = s }
      ∷ select (λ e. not (is_entry (relative name) s.rdtype e)) es);
}

listed :
    (es : List Entry) (key : Labels) (rdtype : ℕ) (s : Rdataset Text)
    → lookup es key rdtype ≡ some s
    → any (λ n. sample_names.name_eq (relative n) key) (map (λ e. e.owner) es) ≡ true
unfolding lookup
listed [] key rdtype s h = cc
listed (e ∷ es) key rdtype s h = elim (Bool-cases (at key e)) [
  | inl k ↦ rw k refl
  | inr k ↦ rw k (listed es key rdtype s (ground arith))
]

any-at :
    (es : List Entry) (key : Labels) (rdtype : ℕ) (s : Rdataset Text)
    → lookup es key rdtype ≡ some s
    → any (at key) es ≡ true
unfolding lookup
any-at [] key rdtype s h = cc
any-at (e ∷ es) key rdtype s h = elim (Bool-cases (at key e)) [
  | inl k ↦ rw k refl
  | inr k ↦ rw k (any-at es key rdtype s (ground arith))
]

find?-sets_at :
    (es : List Entry) (key : Labels) (rdtype : ℕ)
    → find? (of_type rdtype) (sets_at key es) ≡ lookup es key rdtype
unfolding lookup
find?-sets_at [] key rdtype = refl
find?-sets_at (e ∷ es) key rdtype = ground (arith, find?-sets_at es key rdtype)

lookup-no_at :
    (es : List Entry) (key : Labels) (rdtype : ℕ)
    → any (at key) es ≡ false
    → lookup es key rdtype ≡ none
unfolding lookup
lookup-no_at [] key rdtype h = refl
lookup-no_at (e ∷ es) key rdtype h = ground (arith, lookup-no_at es key rdtype)

node_lookup :
    (es : List Entry) (key : Labels) (node : List (Rdataset Text)) (rdtype : ℕ)
    → (if any (at key) es then some (sets_at key es) else none) ≡ some node
    → find? (of_type rdtype) node ≡ lookup es key rdtype
node_lookup es key node rdtype h = elim (Bool-cases (any (at key) es)) [
  | inl k ↦
      let same : sets_at key es ≡ node = ground arith in
      subst (λ n. find? (of_type rdtype) n ≡ lookup es key rdtype) same
        (find?-sets_at es key rdtype)
  | inr k ↦ absurd (nothing k)
]
  where
    nothing : any (at key) es ≡ false → ⊥
    nothing k = ground arith

-- Leaving out entries of other names or types does not matter.
lookup-select :
    (p : Entry → Bool) (es : List Entry) (key : Labels) (rdtype : ℕ)
    → ((e : Entry) → is_entry key rdtype e ≡ true → p e ≡ true)
    → lookup (select p es) key rdtype ≡ lookup es key rdtype
unfolding lookup
lookup-select p [] key rdtype h = refl
lookup-select p (e ∷ es) key rdtype h =
    let here = h e in ground (arith, lookup-select p es key rdtype h)

lookup-eq-none :
    (p : Entry → Bool) (es : List Entry) (key : Labels) (rdtype : ℕ)
    → ((e : Entry) → is_entry key rdtype e ≡ true → p e ≡ false)
    → lookup (select p es) key rdtype ≡ none
unfolding lookup
lookup-eq-none p [] key rdtype h = refl
lookup-eq-none p (e ∷ es) key rdtype h =
    let here = h e in ground (arith, lookup-eq-none p es key rdtype h)

same_name :
    (n key owner : Labels)
    → sample_names.name_eq owner key ≡ true
    → sample_names.name_eq owner n ≡ sample_names.name_eq key n
same_name n key owner h = ap (λ o. sample_names.name_eq o n) (name_eq→eq owner key h)

at_name : (key : Labels) (rdtype : ℕ) (e : Entry) → is_entry key rdtype e ≡ true → at key e ≡ true
at_name key rdtype e h = elim (Bool-cases (at key e)) [ inl k ↦ k | inr k ↦ ground arith ]

not_back :
    (n key : Labels) → sample_names.name_eq n key ≡ false → sample_names.name_eq key n ≡ false
not_back n key h = elim (Bool-cases (sample_names.name_eq key n)) [
  | inl k ↦ let back = sample_names-NamesLaws.equality.eq_sym key n k in cc
  | inr k ↦ k
]

-- An entry for a name and type is none for another name or type.
other_entry :
    (n key : Labels) (t rdtype : ℕ) (e : Entry)
    → (sample_names.name_eq n key ≡ false) ⊎ (t ≢ rdtype)
    → is_entry key rdtype e ≡ true
    → not (is_entry n t e) ≡ true
other_entry n key t rdtype e (inl h) k =
    let m = same_name n key (relative e.owner) (at_name key rdtype e k) ∙ not_back n key h in
    rw m refl
other_entry n key t rdtype e (inr h) k = ground arith

added_other :
    (txn : List Entry) (n key : Labels) (s : Rdataset Text) (rdtype : ℕ)
    → (sample_names.name_eq (relative n) key ≡ false) ⊎ (s.rdtype ≢ rdtype)
    → lookup
        (record { owner = n; rdataset = s }
          ∷ select (λ e. not (is_entry (relative n) s.rdtype e)) txn)
        key
        rdtype
      ≡ lookup txn key rdtype
unfolding lookup
added_other txn n key s rdtype o =
    let rest =
      lookup-select (λ e. not (is_entry (relative n) s.rdtype e)) txn key rdtype
        (λ e k. other_entry (relative n) key s.rdtype rdtype e o k) in
    let head : is_entry key rdtype (record { owner = n; rdataset = s }) ≡ false = elim o [
      | inl h ↦ rw h refl
      | inr h ↦ ground arith
    ] in
    rw head rest

added_new :
    (es : List Entry) (n key : Labels) (s : Rdataset Text)
    → sample_names.name_eq (relative n) key ≡ true
    → lookup (record { owner = n; rdataset = s } ∷ es) key s.rdtype ≡ some s
unfolding lookup
added_new es n key s h = rw h (ground arith)

pub sample_zones-ZonesLaws : ZonesLaws sample_zones sample_origin
sample_zones-ZonesLaws = record {
  rdclass_in = λ zone. refl;
  reader_commit = λ zone txn. refl;
  get_owner = λ txn a b rdtype h.
      ap (λ key. lookup txn key rdtype) (name_eq→eq (relative a) (relative b) h);
  get_listed = λ txn name rdtype s h.
      any-frozenset sample_names.name_eq sample_names-NamesLaws.equality
        (λ n. sample_names.name_eq (relative n) (relative name))
        (λ a b e k.
          subst (λ n. sample_names.name_eq (relative n) (relative name) ≡ true) (name_eq→eq a b e)
            k)
        (map (λ e. e.owner) txn)
      ∙ listed txn (relative name) rdtype s h;
  get_has_node = λ txn name rdtype s h.
      let k = any-at txn (relative name) rdtype s h in
      (sets_at (relative name) txn, rw k refl, refl);
  node_get = λ txn name node rdtype h. node_lookup txn (relative name) node rdtype h;
  get_delete_same = λ txn n name rdtype h.
      lookup-eq-none (λ e. not (at (relative n) e)) txn (relative name) rdtype
        (λ e k. ap not (
          same_name (relative n) (relative name) (relative e.owner)
            (at_name (relative name) rdtype e k)
          ∙ sample_names-NamesLaws.equality.eq_sym (relative n) (relative name) h));
  get_delete_other = λ txn n name rdtype h.
      lookup-select (λ e. not (at (relative n) e)) txn (relative name) rdtype
        (λ e k. ap not (
          same_name (relative n) (relative name) (relative e.owner)
            (at_name (relative name) rdtype e k)
          ∙ not_back (relative n) (relative name) h));
  get_add_new = λ txn after n name s h c e a.
      let same : record { owner = n; rdataset = s }
            ∷ select (λ e. not (is_entry (relative n) s.rdtype e)) txn
          ≡ after =
        ground arith in
      subst (λ t. lookup t (relative name) s.rdtype ≡ some s) same
        (added_new (select (λ e. not (is_entry (relative n) s.rdtype e)) txn) n (relative name) s
          h);
  get_add_other = λ txn after n name s rdtype c d o a.
      let same : record { owner = n; rdataset = s }
            ∷ select (λ e. not (is_entry (relative n) s.rdtype e)) txn
          ≡ after =
        ground arith in
      subst (λ t. lookup t (relative name) rdtype ≡ lookup txn (relative name) rdtype) same
        (added_other txn n (relative name) s rdtype o);
}
