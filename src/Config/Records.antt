-- ===== src/Config/Records.antt =====
-- The set of records that `_make_a_records` makes of a dictionary.
use mathlib.Core.List.{Memᴰ}
use a_healthy_dns.Base.{
  ◌≡◌, ◌≢◌, refl, sym, subst, ◌∙◌, true, false, some, List, [], ◌∷◌, IsOrdered, arith, ok,
  any_of_mem, >>?-eq-some,
}
use a_healthy_dns.Base.Set.{contains, frozenset}
use a_healthy_dns.Base.Set.Laws.{IsEquality, contains-frozenset}
use a_healthy_dns.Base.Set.Elements.{frozenset-IsOrdered, mem-of_frozenset, frozenset-ne-nil}
use a_healthy_dns.Base.Text.{Text}
use a_healthy_dns.Json.{Value, Entries, dict, entries_of}
use a_healthy_dns.Unicode.{Unicode, AsciiLaws}
use a_healthy_dns.Dns.Names.{Names, NamesLaws}
use a_healthy_dns.Records.HealthyRecord.{AHealthyRecord, healthy_record_eq}
use a_healthy_dns.Config.{
  Args, Loading, make_healthy_a_record, healthy_a_records, a_records_of_entries, a_records_of,
  make_a_records,
}
use a_healthy_dns.Config.Entries.{IsMadeOf, make_healthy_a_record-IsMadeOf}

module _ (names : Names) (name_laws : NamesLaws names) (u : Unicode) (laws : AsciiLaws u) where
  open names use {Name}

  abbrev Record : Type 0
  Record = AHealthyRecord names

  -- The records that a list of entries gives, in order.
  pub data AreMadeOf (origin : Name) : List (Text × Value) → List Record → Type 0 where
    done : AreMadeOf origin [] []
    next :
        (key : Text) (value : Value) (r : Record) (entries : List (Text × Value)) (rs : List Record)
        → IsMadeOf names u laws origin key value r
        → AreMadeOf origin entries rs
        → AreMadeOf origin ((key, value) ∷ entries) (r ∷ rs)

  healthy_a_records-AreMadeOf :
      (origin : Name) (entries : List (Text × Value)) (rs : List Record)
      → healthy_a_records names u origin entries ≡ ok (some rs)
      → AreMadeOf origin entries rs
  unfolding healthy_a_records
  healthy_a_records-AreMadeOf origin [] rs h =
      let same : [] ≡ rs = ground arith in subst (AreMadeOf origin []) same done
  healthy_a_records-AreMadeOf origin ((key, value) ∷ entries) rs h =
      let (r, made, h') = >>?-eq-some (make_healthy_a_record names u origin key value) _ h in
      let (rest, read, h'') = >>?-eq-some (healthy_a_records names u origin entries) _ h' in
      let same : r ∷ rest ≡ rs = ground arith in
      subst (AreMadeOf origin ((key, value) ∷ entries)) same (
        next key value r entries rest
          (make_healthy_a_record-IsMadeOf names u laws origin key value r made)
          (healthy_a_records-AreMadeOf origin entries rest read))

  record_entry :
      (origin : Name) (entries : List (Text × Value)) (rs : List Record) (r : Record)
      → AreMadeOf origin entries rs
      → Memᴰ r rs
      → (key : Text) × (value : Value) × Memᴰ (key, value) entries
        × IsMadeOf names u laws origin key value r
  record_entry origin _ _ r done m = elim m [ ]
  record_entry origin _ _ r (next key value q entries rs one more) (Memᴰ.head e) =
      (key, value, Memᴰ.head refl, subst (IsMadeOf names u laws origin key value) (sym e) one)
  record_entry origin _ _ r (next key value q entries rs one more) (Memᴰ.tail m) =
      let (k, v, n, is) = record_entry origin entries rs r more m in (k, v, Memᴰ.tail n, is)

  entry_record :
      (origin : Name) (entries : List (Text × Value)) (rs : List Record) (key : Text)
      (value : Value)
      → AreMadeOf origin entries rs
      → Memᴰ (key, value) entries
      → (r : Record) × Memᴰ r rs × IsMadeOf names u laws origin key value r
  entry_record origin _ _ key value done m = elim m [ ]
  entry_record origin _ _ key value (next k v r entries rs one more) (Memᴰ.head e) =
      (r, Memᴰ.head refl, subst (λ p. IsMadeOf names u laws origin p.0 p.1 r) (sym e) one)
  entry_record origin _ _ key value (next k v q entries rs one more) (Memᴰ.tail m) =
      let (r, n, is) = entry_record origin entries rs key value more m in (r, Memᴰ.tail n, is)

  made_nonempty :
      (origin : Name) (e : Text × Value) (entries : List (Text × Value)) (rs : List Record)
      → AreMadeOf origin (e ∷ entries) rs
      → rs ≢ []
  made_nonempty origin e entries [] are h = elim are [ ]
  made_nonempty origin e entries (r ∷ rs) are h = cc

  -- The set: not empty, no two records of one name, each made of an entry, and for each entry a
  -- record of its name.
  pub record AreRecordsOf (origin : Name) (entries : List (Text × Value)) (rs : List Record)
      : Type 0 where
    pub nonempty : rs ≢ []
    pub distinct : IsOrdered (λ a b. healthy_record_eq names a b ≡ false) rs
    pub sound :
        (r : Record)
        → Memᴰ r rs
        → (key : Text) × (value : Value) × Memᴰ (key, value) entries
          × IsMadeOf names u laws origin key value r
    pub complete :
        (key : Text) (value : Value)
        → Memᴰ (key, value) entries
        → (r : Record) × IsMadeOf names u laws origin key value r
          × (contains (healthy_record_eq names) r rs ≡ true)

  healthy_record-IsEquality : IsEquality (healthy_record_eq names)
  unfolding healthy_record_eq
  healthy_record-IsEquality = record {
    eq_refl = λ a. name_laws.equality.eq_refl a.subdomain;
    eq_sym = λ a b. name_laws.equality.eq_sym a.subdomain b.subdomain;
    eq_trans = λ a b c. name_laws.equality.eq_trans a.subdomain b.subdomain c.subdomain;
  }

  set_of :
      (origin : Name) (entries : List (Text × Value)) (rs : List Record)
      → rs ≢ []
      → AreMadeOf origin entries rs
      → AreRecordsOf origin entries (frozenset (healthy_record_eq names) rs)
  set_of origin entries rs n are =
      let eq = healthy_record_eq names in
      record {
        nonempty = frozenset-ne-nil eq rs n;
        distinct = frozenset-IsOrdered eq rs;
        sound = λ r m. record_entry origin entries rs r are (mem-of_frozenset eq r rs m);
        complete = λ key value m.
            let (r, k, is) = entry_record origin entries rs key value are m in
            (
              r,
              is,
              contains-frozenset eq healthy_record-IsEquality r rs
                  ∙ any_of_mem (λ x. eq x r) r rs k (healthy_record-IsEquality.eq_refl r),
            );
      }

  -- What `_make_a_records` makes of a value that `json.loads` returned.
  pub record AreRecords (origin : Name) (v : Value) (rs : List Record) : Type 0 where
    pub entries : Entries
    pub is_dict : v ≡ dict entries
    pub records : AreRecordsOf origin (entries_of entries) rs

  of_entries :
      (origin : Name) (entries : List (Text × Value)) (rs : List Record)
      → a_records_of_entries names u origin entries ≡ ok (some rs)
      → AreRecordsOf origin entries rs
  unfolding a_records_of_entries
  of_entries origin [] rs h = cc
  of_entries origin (e ∷ entries) rs h =
      let (made, read, h') = >>?-eq-some (healthy_a_records names u origin (e ∷ entries)) _ h in
      let are = healthy_a_records-AreMadeOf origin (e ∷ entries) made read in
      let same : frozenset (healthy_record_eq names) made ≡ rs = ground arith in
      subst (AreRecordsOf origin (e ∷ entries)) same
        (set_of origin (e ∷ entries) made (made_nonempty origin e entries made are) are)

  of_value :
      (origin : Name) (v : Value) (rs : List Record)
      → a_records_of names u origin v ≡ ok (some rs)
      → AreRecords origin v rs
  unfolding a_records_of
  of_value origin (dict es) rs h = record {
    entries = es;
    is_dict = refl;
    records = of_entries origin (entries_of es) rs h;
  }
  of_value origin v rs h = cc

  pub make_a_records-AreRecords :
      (loading : Loading) (origin : Name) (args : Args) (rs : List Record)
      → make_a_records names u loading origin args ≡ ok (some rs)
      → (v : Value) × (loading.loads args.resolutions ≡ ok (some v)) × AreRecords origin v rs
  unfolding make_a_records
  make_a_records-AreRecords loading origin args rs h =
      let (v, read, rest) = >>?-eq-some (loading.loads args.resolutions) _ h in
      (v, read, of_value origin v rs rest)
