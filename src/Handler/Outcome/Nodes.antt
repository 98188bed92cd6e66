-- ===== src/Handler/Outcome/Nodes.antt =====
-- Which names exist in the zone: with a node, or by a name below them.
use mathlib.Core.List.{Memᴰ}
use a_healthy_dns.Base.{
  ℕ, ◌≡◌, ◌≢◌, ◌⊎◌, refl, inl, inr, true, false, none, some, List, [], ◌∷◌, any, Bool-cases,
  Option-cases, any_of_mem, mem_of_any,
}
use a_healthy_dns.Dns.Names.{Names}
use a_healthy_dns.Dns.Rdatasets.{Rdatasets, RRset}
use a_healthy_dns.Dns.Zones.{Zones}
use a_healthy_dns.Handler.Outcome.{
  ResponseOutcome, build_authority_with_apex_soa, is_empty_non_terminal, noerror,
}

module _ (names : Names) (rdatasets : Rdatasets) (zones : Zones names rdatasets) where
  open names use {Name, is_subdomain}
  open rdatasets use {Rdata}
  open zones use {Txn, Node, get_node, node_truth, get_rdataset, iterate_names}

  unfoldable pub positive : List (RRset Name Rdata) → ResponseOutcome names rdatasets
  positive answer = record {
    rcode = noerror;
    is_authoritative = true;
    answer = answer;
    authority = [];
  }

  unfoldable pub negative : ℕ → Name → Txn → ResponseOutcome names rdatasets
  negative rcode origin txn = record {
    rcode = rcode;
    is_authoritative = true;
    answer = [];
    authority = build_authority_with_apex_soa names rdatasets zones origin txn;
  }

  -- A node with records stands at the name.
  pub record HasNode (txn : Txn) (name : Name) (node : Node) : Type 0 where
    pub found : get_node txn name ≡ some node
    pub holds : node_truth node ≡ true

  abbrev pub HasNoNode : Txn → Name → Type 0
  HasNoNode txn name =
      (get_node txn name ≡ none)
      ⊎ ((n : Node) × (get_node txn name ≡ some n) × (node_truth n ≡ false))

  -- Some name of the zone is the name or lies below it.
  abbrev pub HasBelow : Txn → Name → Type 0
  HasBelow txn name = (n : Name) × Memᴰ n (iterate_names txn) × (is_subdomain n name ≡ true)

  -- A name exists with a node or by a name below it.
  abbrev pub Exists : Txn → Name → Type 0
  Exists txn name = ((n : Node) × HasNode txn name n) ⊎ HasBelow txn name

  pub node_cases :
      (txn : Txn) (name : Name) → ((n : Node) × HasNode txn name n) ⊎ HasNoNode txn name
  node_cases txn name = elim (Option-cases (get_node txn name)) [
    | inl e ↦ inr (inl e)
    | inr (n, e) ↦ elim (Bool-cases (node_truth n)) [
      | inl h ↦ inl (n, record { found = e; holds = h })
      | inr h ↦ inr (inr (n, e, h))
    ]
  ]

  pub ent_true :
      (txn : Txn) (name : Name)
      → HasBelow txn name
      → is_empty_non_terminal names rdatasets zones name txn ≡ true
  unfolding is_empty_non_terminal
  ent_true txn name (n, m, e) = any_of_mem (λ x. is_subdomain x name) n (iterate_names txn) m e

  pub ent_cases :
      (txn : Txn) (name : Name)
      → HasBelow txn name
        ⊎ ((¬ HasBelow txn name) × (is_empty_non_terminal names rdatasets zones name txn ≡ false))
  unfolding is_empty_non_terminal
  ent_cases txn name = elim (Bool-cases (any (λ x. is_subdomain x name) (iterate_names txn))) [
    | inl e ↦ inl (mem_of_any (λ x. is_subdomain x name) (iterate_names txn) e)
    | inr e ↦
        inr (λ (n, m, k). cc (any_of_mem (λ x. is_subdomain x name) n (iterate_names txn) m k), e)
  ]

  pub nil_cases : (ds : List Rdata) → (ds ≡ []) ⊎ (ds ≢ [])
  nil_cases [] = inl refl
  nil_cases (d ∷ ds) = inr (λ e. cc)
