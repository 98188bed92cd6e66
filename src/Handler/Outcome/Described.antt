-- ===== src/Handler/Outcome/Described.antt =====
-- What a question in a configured zone gets, described by the records of the zone.
use a_healthy_dns.Base.{
  ℕ, ◌≡◌, ◌≢◌, refl, sym, subst, ap, inr, true, some, List, [], ◌∷◌, arith, Result, ok,
}
use a_healthy_dns.Base.Int.{min_ℤ}
use a_healthy_dns.Base.Text.{codes}
use a_healthy_dns.Dns.Names.{Names}
use a_healthy_dns.Dns.Rdatasets.{
  Rdatasets, RdatasetsLaws, Rdataset, RRset, IsRecordSet, in_class, soa_type, hinfo_type, any_type,
}
use a_healthy_dns.Dns.Zones.{Zones}
use a_healthy_dns.Dns.Messages.{Question}
use a_healthy_dns.Records.ZoneOrigins.{ZoneOrigins, origin_for}
use a_healthy_dns.Handler.Outcome.{
  ResponseOutcome, classify_query, build_answer, build_apex_soa, build_rfc8482_hinfo_answer,
  noerror, nxdomain,
}
use a_healthy_dns.Handler.Outcome.Nodes.{HasNode, Exists, positive, negative}
use a_healthy_dns.Handler.Outcome.Existence.{
  Verdict, HasNoData, absent, any_question, data_found, no_data, any_outcome,
}
use a_healthy_dns.Handler.Outcome.Records.{build_answer_copies, build_authority_soa}
use a_healthy_dns.Handler.Outcome.Shape.{classify_query-Verdict}

module _ (names : Names) (rdatasets : Rdatasets) where
  open names use {Name}
  open rdatasets use {Rdata}

  -- The record set with another owner.
  abbrev pub owned_by : Name → Rdataset Rdata → RRset Name Rdata
  owned_by name s = record {
    name = name;
    rdclass = s.rdclass;
    rdtype = s.rdtype;
    ttl = s.ttl;
    items = s.items;
  }

  -- A set of class IN with one record and a time that is the smaller of the SOA set's and the SOA
  -- record's minimum.
  abbrev pub one_record : ℕ → Rdataset Rdata → Rdata → Rdata → Rdataset Rdata
  one_record rdtype soa_set soa rdata = record {
    rdclass = in_class;
    rdtype = rdtype;
    ttl = min_ℤ soa_set.ttl (rdatasets.minimum soa);
    items = rdata ∷ [];
  }

  -- The library reads the text of RFC 8482 as one HINFO record with the given time.
  abbrev pub ReadsHinfo : Rdataset Rdata → Rdata → Rdata → Type 0
  ReadsHinfo soa_set soa hinfo =
      rdatasets.from_text in_class hinfo_type (min_ℤ soa_set.ttl (rdatasets.minimum soa))
        (codes "\"RFC8482\" \"\"" ∷ [])
      ≡ ok (one_record hinfo_type soa_set soa hinfo)

  module _ (zones : Zones names rdatasets) where
    open zones use {Txn, Node, get, get_rdataset}

    -- The zone's SOA set and its first record, a HINFO record, and the question for a name of the
    -- zone.
    module _ (soa_set : Rdataset Rdata) (soa hinfo : Rdata) (question : Question names)
        (origin name : Name) (txn : Txn) (rdclass : ℕ) where
      -- No answer, with the SOA record of the zone in the authority section.
      abbrev pub denial : ℕ → ResponseOutcome names rdatasets
      denial rcode = record {
        rcode = rcode;
        is_authoritative = true;
        answer = [];
        authority = owned_by origin (one_record soa_type soa_set soa soa) ∷ [];
      }

      -- One record set as the answer, owned by the name that was asked for.
      abbrev pub answer_with : Rdataset Rdata → ResponseOutcome names rdatasets
      answer_with s = record {
        rcode = noerror;
        is_authoritative = true;
        answer = owned_by question.name s ∷ [];
        authority = [];
      }

      pub data IsDecided : Result (ResponseOutcome names rdatasets) → Type 0 where
        name_absent : ¬ Exists names rdatasets zones txn name → IsDecided (ok (denial nxdomain))
        any_asked :
            Exists names rdatasets zones txn name
            → question.rdtype ≡ any_type
            → IsDecided (ok (answer_with (one_record hinfo_type soa_set soa hinfo)))
        data_copied :
            (n : Node) (s : Rdataset Rdata)
            → HasNode names rdatasets zones txn name n
            → question.rdtype ≢ any_type
            → get_rdataset n rdclass question.rdtype ≡ some s
            → s.items ≢ []
            → IsDecided (ok (answer_with s))
        data_absent :
            Exists names rdatasets zones txn name
            → question.rdtype ≢ any_type
            → HasNoData names rdatasets zones question origin name txn rdclass
            → IsDecided (ok (denial noerror))

      -- What the description asks of the zone and of the library: the SOA set stands at the apex
      -- with a record in it, the HINFO text can be read, and the zone holds record sets.
      pub record IsServable : Type 0 where
        pub rest : List Rdata
        pub apex : get txn names.empty soa_type ≡ some soa_set
        pub filled : soa_set.items ≡ soa ∷ rest
        pub hinfo_read : ReadsHinfo soa_set soa hinfo
        pub sets :
            (n : Node) (s : Rdataset Rdata)
            → HasNode names rdatasets zones txn name n
            → get_rdataset n rdclass question.rdtype ≡ some s
            → IsRecordSet rdatasets s

      module _ (laws : RdatasetsLaws rdatasets) (servable : IsServable) where
        negative-denial :
            (rcode : ℕ) → negative names rdatasets zones rcode origin txn ≡ denial rcode
        unfolding negative
        negative-denial rcode =
            rw
              (build_authority_soa names rdatasets laws zones origin txn soa_set soa servable.rest
                servable.apex servable.filled)
              refl

        positive-answer :
            (s : Rdataset Rdata)
            → IsRecordSet rdatasets s
            → positive names rdatasets zones (build_answer names rdatasets question.name s)
              ≡ answer_with s
        unfolding positive
        positive-answer s w = rw (build_answer_copies names rdatasets laws question.name s w) refl

        hinfo-IsRecordSet : IsRecordSet rdatasets (one_record hinfo_type soa_set soa hinfo)
        hinfo-IsRecordSet = record { distinct = (refl, tt); singleton = inr (omega arith) }

        apex_read :
            build_apex_soa names rdatasets zones txn
            ≡ some (record { rdata = soa; ttl = min_ℤ soa_set.ttl (rdatasets.minimum soa) })
        unfolding build_apex_soa
        apex_read = let e = servable.apex in let f = servable.filled in ground arith

        hinfo_answer :
            build_rfc8482_hinfo_answer names rdatasets zones question.name txn
            ≡ ok (
                build_answer names rdatasets question.name
                  (one_record hinfo_type soa_set soa hinfo))
        unfolding build_rfc8482_hinfo_answer
        hinfo_answer = let e = servable.hinfo_read in ground (arith, apex_read)

        any_outcome-answer :
            any_outcome names rdatasets zones question origin name txn rdclass
            ≡ ok (answer_with (one_record hinfo_type soa_set soa hinfo))
        any_outcome-answer = rw hinfo_answer (ap (λ o. ok o) (positive-answer _ hinfo-IsRecordSet))

        of_Verdict :
            (r : Result (ResponseOutcome names rdatasets))
            → Verdict names rdatasets zones question origin name txn rdclass r
            → IsDecided r
        of_Verdict _ (absent k) =
            subst (λ o. IsDecided (ok o)) (sym (negative-denial nxdomain)) (name_absent k)
        of_Verdict _ (any_question k a) = subst IsDecided (sym any_outcome-answer) (any_asked k a)
        of_Verdict _ (data_found n s h p f i) =
            subst (λ o. IsDecided (ok o)) (sym (positive-answer s (servable.sets n s h f)))
              (data_copied n s h p f i)
        of_Verdict _ (no_data k p d) =
            subst (λ o. IsDecided (ok o)) (sym (negative-denial noerror)) (data_absent k p d)

    -- In a zone with an SOA record at the apex, whose sets are record sets of the library, which
    -- reads the HINFO text: a question for an absolute name that lies in the zone is decided by the
    -- committed version, under the name relative to the zone, and nothing is raised. If neither the
    -- name nor a name below it is in the zone, it gets NXDOMAIN; type ANY gets one HINFO record; a
    -- type of which the node has records gets exactly that record set, owned by the name that was
    -- asked for; and any other type gets NOERROR and no answer. All are authoritative. NXDOMAIN and
    -- the missing type have in the authority section the SOA record alone, owned by the zone's name,
    -- with the smaller of its set's time and its minimum; the others have none.
    pub classify_query-IsDecided :
        (soa_set : Rdataset Rdata) (soa hinfo : Rdata) (question : Question names)
        (zone : zones.Zone) (zone_origins : ZoneOrigins names) (origin : Name)
        → RdatasetsLaws rdatasets
        → names.is_absolute question.name ≡ true
        → origin_for names zone_origins question.name ≡ some origin
        → IsServable soa_set soa hinfo question origin
            (names.relativize question.name origin)
            (zones.reader zone)
            (zones.rdclass zone)
        → IsDecided soa_set soa hinfo question origin
            (names.relativize question.name origin)
            (zones.reader zone)
            (zones.rdclass zone)
            (classify_query names rdatasets zones question zone zone_origins)
    classify_query-IsDecided soa_set soa hinfo question zone zone_origins origin laws a e servable =
        of_Verdict soa_set soa hinfo question origin (names.relativize question.name origin)
          (zones.reader zone) (zones.rdclass zone) laws servable
          (classify_query names rdatasets zones question zone zone_origins)
          (classify_query-Verdict names rdatasets zones question zone zone_origins origin a e)
