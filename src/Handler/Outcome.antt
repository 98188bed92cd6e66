-- ===== src/Handler/Outcome.antt =====
-- From a question to the outcome: `_classify_query` and what it calls. Logging is left out.
pub mod Records
pub mod Shape
pub mod Found
pub mod Nodes
pub mod Existence
pub mod Described
use a_healthy_dns.Base.{
  ℕ, Bool, true, false, Option, none, some, List, [], ◌∷◌, any, ◌==◌, if◌then◌else◌, Result, ok,
  raised, dns_error, ◌>>=◌,
}
use a_healthy_dns.Base.Int.{ℤ, pos, min_ℤ}
use a_healthy_dns.Base.Text.{codes}
use a_healthy_dns.Dns.Names.{Names}
use a_healthy_dns.Dns.Rdatasets.{
  Rdatasets, Rdataset, RRset, in_class, soa_type, hinfo_type, any_type,
}
use a_healthy_dns.Dns.Zones.{Zones}
use a_healthy_dns.Dns.Messages.{Question}
use a_healthy_dns.Records.ZoneOrigins.{ZoneOrigins, origin_for, relativize}

-- The numbers of the response codes that the source names.
abbrev pub noerror : ℕ
noerror = 0

abbrev pub formerr : ℕ
formerr = 1

abbrev pub nxdomain : ℕ
nxdomain = 3

abbrev pub notimp : ℕ
notimp = 4

abbrev pub refused : ℕ
refused = 5

module _ (names : Names) (rdatasets : Rdatasets) where
  open names use {Name, is_subdomain, empty}
  open rdatasets use {Rdata, minimum, from_text, add}

  pub record ApexSoa : Type 0 where
    pub rdata : Rdata
    pub ttl : ℤ

  pub record ResponseOutcome : Type 0 where
    pub rcode : ℕ
    pub is_authoritative : Bool
    pub answer : List (RRset Name Rdata)
    pub authority : List (RRset Name Rdata)

  -- The loop `for rdata in rdataset: rrset.add(rdata)`.
  pub add_all : RRset Name Rdata → List Rdata → RRset Name Rdata
  add_all rrset [] = rrset
  add_all rrset (rdata ∷ rest) =
      add_all (record rrset { items = add rrset.rdtype rrset.items rdata }) rest

  pub build_answer : Name → Rdataset Rdata → List (RRset Name Rdata)
  unfolding add_all
  build_answer query_name rdataset =
      add_all
        (record {
          name = query_name;
          rdclass = rdataset.rdclass;
          rdtype = rdataset.rdtype;
          ttl = rdataset.ttl;
          items = [];
        })
        rdataset.items
      ∷ []

  first_soa : Rdataset Rdata → List Rdata → Option ApexSoa
  first_soa soa_rdataset [] = none
  first_soa soa_rdataset (soa_rdata ∷ rest) =
      some (record { rdata = soa_rdata; ttl = min_ℤ soa_rdataset.ttl (minimum soa_rdata) })

  module _ (zones : Zones names rdatasets) where
    open zones use {Zone, Txn, Node, reader, get, get_node, node_truth, get_rdataset, iterate_names}

    pub build_apex_soa : Txn → Option ApexSoa
    unfolding first_soa
    build_apex_soa txn = elim (get txn empty soa_type) [
      | none ↦ none
      | some soa_rdataset ↦ first_soa soa_rdataset soa_rdataset.items
    ]

    pub build_authority_with_apex_soa : Name → Txn → List (RRset Name Rdata)
    build_authority_with_apex_soa apex_name txn = elim (build_apex_soa txn) [
      | none ↦ []
      | some soa ↦
          record {
            name = apex_name;
            rdclass = in_class;
            rdtype = soa_type;
            ttl = soa.ttl;
            items = add soa_type [] soa.rdata;
          }
          ∷ []
    ]

    soa_ttl : Option ApexSoa → ℤ
    soa_ttl none = pos 0
    soa_ttl (some soa) = soa.ttl

    pub build_rfc8482_hinfo_answer : Name → Txn → Result (List (RRset Name Rdata))
    unfolding soa_ttl
    build_rfc8482_hinfo_answer query_name txn = do
      rdataset ←
          from_text in_class hinfo_type (soa_ttl (build_apex_soa txn))
            (codes "\"RFC8482\" \"\"" ∷ [])
      ok (build_answer query_name rdataset)

    make_answer_outcome : List (RRset Name Rdata) → ResponseOutcome
    make_answer_outcome answer = record {
      rcode = noerror;
      is_authoritative = true;
      answer = answer;
      authority = [];
    }

    make_refused_outcome : ResponseOutcome
    make_refused_outcome = record {
      rcode = refused;
      is_authoritative = false;
      answer = [];
      authority = [];
    }

    make_soa_authority_outcome : Name → Txn → ℕ → ResponseOutcome
    make_soa_authority_outcome origin_name txn rcode = record {
      rcode = rcode;
      is_authoritative = true;
      answer = [];
      authority = build_authority_with_apex_soa origin_name txn;
    }

    pub is_empty_non_terminal : Name → Txn → Bool
    is_empty_non_terminal query_name txn =
        any (λ name. is_subdomain name query_name) (iterate_names txn)

    pub classify_empty_non_terminal_query : Question names → Name → Txn → Result ResponseOutcome
    unfolding make_answer_outcome make_soa_authority_outcome
    classify_empty_non_terminal_query question origin_name txn =
        if question.rdtype == any_type
        then (do
          answer ← build_rfc8482_hinfo_answer question.name txn
          ok (make_answer_outcome answer))
        else ok (make_soa_authority_outcome origin_name txn noerror)

    -- `if rdataset`: not `None` and not empty
    filled : Option (Rdataset Rdata) → Option (Rdataset Rdata)
    filled none = none
    filled (some rdataset) = elim rdataset.items [ [] ↦ none | _ ∷ _ ↦ some rdataset ]

    unfoldable pub classify_existing_node_query :
        Question names → Name → Txn → Node → ℕ → Result ResponseOutcome
    unfolding make_answer_outcome make_soa_authority_outcome filled
    classify_existing_node_query question origin_name txn node zone_rdclass =
        if question.rdtype == any_type
        then (do
          answer ← build_rfc8482_hinfo_answer question.name txn
          ok (make_answer_outcome answer))
        else elim (filled (get_rdataset node zone_rdclass question.rdtype)) [
          | some rdataset ↦ ok (make_answer_outcome (build_answer question.name rdataset))
          | none ↦ ok (make_soa_authority_outcome origin_name txn noerror)
        ]

    -- `if node`: not `None` and true
    present : Option Node → Option Node
    present none = none
    present (some node) = if node_truth node then some node else none

    -- The part of `_classify_query` under `with zone.reader() as txn`.
    unfoldable pub classify_in_zone :
        Question names → Name → Name → Txn → ℕ → Result ResponseOutcome
    unfolding present make_soa_authority_outcome
    classify_in_zone question origin_name relative_name txn zone_rdclass =
        elim (present (get_node txn relative_name)) [
          | some node ↦ classify_existing_node_query question origin_name txn node zone_rdclass
          | none ↦
              if is_empty_non_terminal relative_name txn
              then classify_empty_non_terminal_query question origin_name txn
              else ok (make_soa_authority_outcome origin_name txn nxdomain)
        ]

    -- A reader asked for the name `None` raises; the second match never sees it.
    unfoldable pub classify_query :
        Question names → Zone → ZoneOrigins names → Result ResponseOutcome
    unfolding make_refused_outcome
    classify_query question zone zone_origins = elim (origin_for names zone_origins question.name) [
      | none ↦ ok make_refused_outcome
      | some origin_name ↦ elim (relativize names zone_origins question.name) [
        | none ↦ raised dns_error
        | some relative_name ↦
            classify_in_zone question origin_name relative_name (reader zone) (zones.rdclass zone)
      ]
    ]
