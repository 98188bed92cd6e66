-- ===== src/Service/Answers.antt =====
-- A question for the addresses of a record: from the health checks to the answer.
use a_healthy_dns.Base.{
  ◌≡◌, ◌≢◌, ◌⊎◌, refl, sym, ap, ◌∙◌, inl, inr, true, false, Option, none, some, [], ◌∷◌, All, arith,
  Result, ok,
}
use a_healthy_dns.Base.Int.{ℤ}
use a_healthy_dns.Dns.Names.{Names, NamesLaws, same_owner}
use a_healthy_dns.Dns.Rdatasets.{Rdatasets, RdatasetsLaws, Rdataset, a_type, any_type}
use a_healthy_dns.Dns.Zones.{Zones, ZonesLaws}
use a_healthy_dns.Dns.Messages.{Question}
use a_healthy_dns.Records.HealthyRecord.{AHealthyRecord}
use a_healthy_dns.Records.HealthyRecord.Sets.{Publishes}
use a_healthy_dns.Records.ZoneOrigins.{ZoneOrigins, origin_for}
use a_healthy_dns.Updater.Current.{Holds}
use a_healthy_dns.Handler.Outcome.{ResponseOutcome, classify_query, noerror}
use a_healthy_dns.Handler.Outcome.Records.{build_answer_copies}
use a_healthy_dns.Handler.Outcome.Nodes.{positive}
use a_healthy_dns.Handler.Outcome.Shape.{classify_query-Verdict}
use a_healthy_dns.Handler.Outcome.Found.{HasNoAnswer, Verdict-found, Verdict-empty}

module _ {names : Names} (origin : names.Name) where
  open names use {Name, is_absolute, relativize as relative_to}

  -- A question for the address records of an absolute name in one of the zones, where the record has
  -- the name relative to that zone.
  pub record AsksFor (z : ZoneOrigins names) (x : Question names) (r : AHealthyRecord names)
      : Type 0 where
    pub absolute : is_absolute x.name ≡ true
    pub rdtype : x.rdtype ≡ a_type
    pub apex : Name
    pub lies : origin_for names z x.name ≡ some apex
    pub owner : same_owner names origin r.subdomain (relative_to x.name apex) ≡ true

module _ {names : Names} {rdatasets : Rdatasets} (set_laws : RdatasetsLaws rdatasets) where
  -- The answer with the records of a set, owned by the name that was asked for.
  abbrev pub answer_of : names.Name → Rdataset rdatasets.Rdata → ResponseOutcome names rdatasets
  answer_of name s = record {
    rcode = noerror;
    is_authoritative = true;
    answer =
        record { name = name; rdclass = s.rdclass; rdtype = s.rdtype; ttl = s.ttl; items = s.items }
        ∷ [];
    authority = [];
  }

  -- What a question for a record gets: an empty answer where no address of the record is healthy, and
  -- else the set of the healthy addresses.
  abbrev pub IsAnswered :
      ℤ → AHealthyRecord names → Question names → Result (ResponseOutcome names rdatasets) → Type 0
  IsAnswered max_interval r x result =
      (All (λ y. y.is_healthy ≡ false) r.healthy_ips × HasNoAnswer result)
      ⊎ ((s : Rdataset rdatasets.Rdata) × Publishes names rdatasets set_laws max_interval r s
          × (result ≡ ok (answer_of x.name s)))

module _ {names : Names} {rdatasets : Rdatasets} (zones : Zones names rdatasets)
    (name_laws : NamesLaws names) {origin : names.Name} (laws : ZonesLaws zones origin)
    (set_laws : RdatasetsLaws rdatasets) where
  open names use {Name, is_absolute, relativize as relative_to}
  open zones use {Zone, Txn, Node, get, get_node, get_rdataset, reader}

  module _ (zone : Zone) (z : ZoneOrigins names) (x : Question names) (r : AHealthyRecord names)
      (asks : AsksFor origin z x r) where
    abbrev asked : Result (ResponseOutcome names rdatasets)
    asked = classify_query names rdatasets zones x zone z

    abbrev name : Name
    name = relative_to x.name asks.apex

    -- The record's name and the relative name stand for one node.
    at_name : get (reader zone) name a_type ≡ get (reader zone) r.subdomain a_type
    at_name = sym (laws.get_owner (reader zone) r.subdomain name a_type asks.owner)

    plain : x.rdtype ≢ any_type
    plain = omega (arith, asks.rdtype)

    node_set :
        (n : Node)
        → get_node (reader zone) name ≡ some n
        → get_rdataset n (zones.rdclass zone) x.rdtype ≡ get (reader zone) r.subdomain a_type
    node_set n e =
        rw (laws.rdclass_in zone, asks.rdtype)
          (laws.node_get (reader zone) name n a_type e ∙ at_name)

    -- The answer, by the set that is committed at the record's name.
    answered_set :
        (s : Rdataset rdatasets.Rdata) (max_interval : ℤ)
        → get (reader zone) r.subdomain a_type ≡ some s
        → Publishes names rdatasets set_laws max_interval r s
        → asked ≡ ok (answer_of set_laws x.name s)
    unfolding positive
    answered_set s max_interval e p =
        let (n, there, holds) = laws.get_has_node (reader zone) name a_type s (at_name ∙ e) in
        Verdict-found names rdatasets zones x asks.apex name (reader zone) (zones.rdclass zone)
          plain n s (record { found = there; holds = holds }) (node_set n there ∙ e) p.nonempty
          asked
          (classify_query-Verdict names rdatasets zones x zone z asks.apex asks.absolute asks.lies)
        ∙ ap (λ y. ok (positive names rdatasets zones y))
            (build_answer_copies names rdatasets set_laws x.name s p.set)

    answered_none : get (reader zone) r.subdomain a_type ≡ none → HasNoAnswer asked
    answered_none e =
        Verdict-empty names rdatasets zones x asks.apex name (reader zone) (zones.rdclass zone)
          plain (λ n there. node_set n there ∙ e) asked
          (classify_query-Verdict names rdatasets zones x zone z asks.apex asks.absolute asks.lies)

    -- The answer, where the zone has for the record what it has to hold.
    pub held-IsAnswered :
        (max_interval : ℤ)
        → Holds set_laws max_interval r (get (reader zone) r.subdomain a_type)
        → IsAnswered set_laws max_interval r x asked
    held-IsAnswered max_interval h = go (get (reader zone) r.subdomain a_type) refl h
      where
        go :
            (o : Option (Rdataset rdatasets.Rdata))
            → get (reader zone) r.subdomain a_type ≡ o
            → Holds set_laws max_interval r o
            → IsAnswered set_laws max_interval r x asked
        go none e k = inl (k, answered_none e)
        go (some s) e k = inr (s, k, answered_set s max_interval e k)
