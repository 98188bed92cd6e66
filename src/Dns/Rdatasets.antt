-- ===== src/Dns/Rdatasets.antt =====
-- `dns.rdataset`: sets of records of one class and type with one time to live.
pub mod Sample
use mathlib.Core.List.{Memᴰ}
use a_healthy_dns.Base.{
  ℕ, ◌≤◌, ◌≡◌, Bool, true, false, [], ◌∷◌, ◌++◌, length, ◌↔◌, ◌⊎◌, List, map, All, Result, ok,
}
use a_healthy_dns.Base.Int.{ℤ}
use a_healthy_dns.Base.Set.{contains}
use a_healthy_dns.Base.Text.{Text}
use a_healthy_dns.Tools.Ip.Address.{IsCanonical}

-- The numbers of the classes and types that the source names.
abbrev pub in_class : ℕ
in_class = 1

abbrev pub a_type : ℕ
a_type = 1

abbrev pub ns_type : ℕ
ns_type = 2

abbrev pub soa_type : ℕ
soa_type = 6

abbrev pub hinfo_type : ℕ
hinfo_type = 13

abbrev pub any_type : ℕ
any_type = 255

pub record Rdataset (Rdata : Type 0) : Type 0 where
  pub rdclass : ℕ
  pub rdtype : ℕ
  pub ttl : ℤ
  pub items : List Rdata

-- A record set with its owner: `dns.rrset.RRset`.
pub record RRset (Name Rdata : Type 0) : Type 0 where
  pub name : Name
  pub rdclass : ℕ
  pub rdtype : ℕ
  pub ttl : ℤ
  pub items : List Rdata

-- `from_text` is `dns.rdataset.from_text`, which may raise; `minimum` is the field of an SOA record;
-- `add` is the method of a record set, on its items; a singleton type has one record at most.
pub record Rdatasets : Type 1 where
  pub Rdata : Type 0
  pub rdata_eq : Rdata → Rdata → Bool
  pub is_singleton : ℕ → Bool
  pub add : ℕ → List Rdata → Rdata → List Rdata
  pub from_text : ℕ → ℕ → ℤ → List Text → Result (Rdataset Rdata)
  pub minimum : Rdata → ℤ

-- What every record set of the library is: no record twice, and one at most of a singleton type.
abbrev pub IsDistinct : {A : Type 0} → (A → A → Bool) → List A → List A → Type 0
IsDistinct eq seen [] = Unit
IsDistinct eq seen (x ∷ xs) = (contains eq x seen ≡ false) × IsDistinct eq (seen ++ x ∷ []) xs

pub record IsRecordSet (rdatasets : Rdatasets) (s : Rdataset rdatasets.Rdata) : Type 0 where
  pub distinct : IsDistinct rdatasets.rdata_eq [] s.items
  pub singleton : (rdatasets.is_singleton s.rdtype ≡ false) ⊎ (length s.items ≤ 1)

-- `add` puts a new record behind the others; `from_text` makes a set of the given class and type, and
-- reads canonical addresses into an A record set that holds one record for each, and none twice.
pub record RdatasetsLaws (rdatasets : Rdatasets) : Type 0 where
  pub add_first : (rdtype : ℕ) (d : rdatasets.Rdata) → rdatasets.add rdtype [] d ≡ d ∷ []
  pub add_next :
      (rdtype : ℕ) (ds : List rdatasets.Rdata) (d : rdatasets.Rdata)
      → rdatasets.is_singleton rdtype ≡ false
      → contains rdatasets.rdata_eq d ds ≡ false
      → rdatasets.add rdtype ds d ≡ ds ++ d ∷ []
  pub a_rdata : Text → rdatasets.Rdata
  pub from_text_type :
      (rdclass rdtype : ℕ) (ttl : ℤ) (texts : List Text) (s : Rdataset rdatasets.Rdata)
      → rdatasets.from_text rdclass rdtype ttl texts ≡ ok s
      → s.rdtype ≡ rdtype
  pub from_text_class :
      (rdclass rdtype : ℕ) (ttl : ℤ) (texts : List Text) (s : Rdataset rdatasets.Rdata)
      → rdatasets.from_text rdclass rdtype ttl texts ≡ ok s
      → s.rdclass ≡ rdclass
  pub from_text_a :
      (ttl : ℤ) (ips : List Text)
      → All IsCanonical ips
      → (r : Rdataset rdatasets.Rdata) × (rdatasets.from_text in_class a_type ttl ips ≡ ok r)
        × (r.rdclass ≡ in_class)
        × (r.rdtype ≡ a_type)
        × (r.ttl ≡ ttl)
        × IsRecordSet rdatasets r
        × ((d : rdatasets.Rdata) → Memᴰ d r.items ↔ Memᴰ d (map a_rdata ips))
