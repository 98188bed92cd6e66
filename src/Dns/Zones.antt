-- ===== src/Dns/Zones.antt =====
-- `dns.versioned.Zone` and its transactions.
pub mod Sample
use a_healthy_dns.Base.{
  ℕ, ◌≡◌, ◌≢◌, ◌⊎◌, Bool, true, false, List, Option, none, some, Result, ok, any,
}
use a_healthy_dns.Dns.Names.{Names, same_owner}
use a_healthy_dns.Dns.Rdatasets.{Rdatasets, Rdataset, in_class}

-- `reader` opens a transaction on the committed version and `commit` makes a transaction's content
-- the committed version. `node_truth` is the truth value of a node. `add` and `delete` write to a
-- transaction, and `add` may raise.
pub record Zones (names : Names) (rdatasets : Rdatasets) : Type 1 where
  pub Zone : Type 0
  pub Txn : Type 0
  pub Node : Type 0
  pub rdclass : Zone → ℕ
  pub reader : Zone → Txn
  pub commit : Zone → Txn → Zone
  pub iterate_names : Txn → List names.Name
  pub get : Txn → names.Name → ℕ → Option (Rdataset rdatasets.Rdata)
  pub get_node : Txn → names.Name → Option Node
  pub node_truth : Node → Bool
  pub get_rdataset : Node → ℕ → ℕ → Option (Rdataset rdatasets.Rdata)
  pub delete : Txn → names.Name → Txn
  pub add : Txn → names.Name → Rdataset rdatasets.Rdata → Result Txn

-- `CNAME`, which does not stand beside other types.
abbrev pub cname_type : ℕ
cname_type = 5

module _ {names : Names} {rdatasets : Rdatasets} (zones : Zones names rdatasets)
    (origin : names.Name) where
  open names use {Name}
  open zones use {
    Zone, Txn, Node, rdclass, reader, commit, iterate_names, get, get_node, node_truth,
    get_rdataset, delete, add,
  }

  abbrev same : Name → Name → Bool
  same = same_owner names origin

  -- Of the zones of class IN with one origin, where a name may be written in full or relative to the
  -- origin. A reader sees what was committed last. Every name with records is listed and has a node
  -- with its records; deleting a name takes away its records and no others; adding a record set
  -- puts it at its name and type, if there is none, and leaves other names and types alone, where
  -- neither type is CNAME.
  pub record ZonesLaws : Type 0 where
    pub rdclass_in : (zone : Zone) → rdclass zone ≡ in_class
    pub reader_commit : (zone : Zone) (txn : Txn) → reader (commit zone txn) ≡ txn
    pub get_owner :
        (txn : Txn) (a b : Name) (rdtype : ℕ)
        → same a b ≡ true
        → get txn a rdtype ≡ get txn b rdtype
    pub get_listed :
        (txn : Txn) (name : Name) (rdtype : ℕ) (s : Rdataset rdatasets.Rdata)
        → get txn name rdtype ≡ some s
        → any (λ n. same n name) (iterate_names txn) ≡ true
    pub get_has_node :
        (txn : Txn) (name : Name) (rdtype : ℕ) (s : Rdataset rdatasets.Rdata)
        → get txn name rdtype ≡ some s
        → (node : Node) × (get_node txn name ≡ some node) × (node_truth node ≡ true)
    pub node_get :
        (txn : Txn) (name : Name) (node : Node) (rdtype : ℕ)
        → get_node txn name ≡ some node
        → get_rdataset node in_class rdtype ≡ get txn name rdtype
    pub get_delete_same :
        (txn : Txn) (n name : Name) (rdtype : ℕ)
        → same n name ≡ true
        → get (delete txn n) name rdtype ≡ none
    pub get_delete_other :
        (txn : Txn) (n name : Name) (rdtype : ℕ)
        → same n name ≡ false
        → get (delete txn n) name rdtype ≡ get txn name rdtype
    pub get_add_new :
        (txn after : Txn) (n name : Name) (s : Rdataset rdatasets.Rdata)
        → same n name ≡ true
        → s.rdtype ≢ cname_type
        → get txn name s.rdtype ≡ none
        → add txn n s ≡ ok after
        → get after name s.rdtype ≡ some s
    pub get_add_other :
        (txn after : Txn) (n name : Name) (s : Rdataset rdatasets.Rdata) (rdtype : ℕ)
        → s.rdtype ≢ cname_type
        → rdtype ≢ cname_type
        → (same n name ≡ false) ⊎ (s.rdtype ≢ rdtype)
        → add txn n s ≡ ok after
        → get after name rdtype ≡ get txn name rdtype
