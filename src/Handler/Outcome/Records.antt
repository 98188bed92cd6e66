-- ===== src/Handler/Outcome/Records.antt =====
-- The record sets of an answer: copies of the zone's, and the apex SOA.
use a_healthy_dns.Base.{
  ◌≤◌, ◌≡◌, refl, ap, ◌∙◌, inl, inr, false, some, List, [], ◌∷◌, ◌++◌, append_assoc, append-nil,
  arith, length,
}
use a_healthy_dns.Base.Int.{min_ℤ}
use a_healthy_dns.Dns.Names.{Names}
use a_healthy_dns.Dns.Rdatasets.{
  Rdatasets, RdatasetsLaws, Rdataset, RRset, IsRecordSet, IsDistinct, in_class, soa_type,
}
use a_healthy_dns.Dns.Zones.{Zones}
use a_healthy_dns.Handler.Outcome.{
  add_all, build_answer, build_apex_soa, build_authority_with_apex_soa,
}

module _ (names : Names) (rdatasets : Rdatasets) (laws : RdatasetsLaws rdatasets) where
  open names use {Name}
  open rdatasets use {Rdata, rdata_eq, is_singleton, minimum}

  add_all-append :
      (r : RRset Name Rdata) (ds : List Rdata)
      → is_singleton r.rdtype ≡ false
      → IsDistinct rdata_eq r.items ds
      → add_all names rdatasets r ds ≡ record r { items = r.items ++ ds }
  unfolding add_all
  add_all-append r [] s h = rw append-nil
  add_all-append r (d ∷ ds) s h =
      let e = laws.add_next r.rdtype r.items d s h.0 in
      rw (e, add_all-append (record r { items = r.items ++ d ∷ [] }) ds s h.1, append_assoc)

  with_items : RRset Name Rdata → List Rdata → RRset Name Rdata
  with_items r ds = record r { items = ds }

  add_all-single :
      (r : RRset Name Rdata) (ds : List Rdata)
      → r.items ≡ []
      → length ds ≤ 1
      → add_all names rdatasets r ds ≡ record r { items = ds }
  unfolding add_all with_items
  add_all-single r [] e l = ap (with_items r) e
  add_all-single r (d ∷ []) e l =
      ap (λ xs. with_items r (rdatasets.add r.rdtype xs d)) e
      ∙ ap (with_items r) (laws.add_first r.rdtype d)
  add_all-single r (d ∷ (c ∷ ds)) e l = absurd (omega arith)

  -- For a record set without a record twice, and with one record at most if its type is a
  -- singleton, the answer is one record set, owned by the name that was asked for, with the class,
  -- type, time and records of the set in the zone.
  pub build_answer_copies :
      (query_name : Name) (s : Rdataset Rdata)
      → IsRecordSet rdatasets s
      → build_answer names rdatasets query_name s
        ≡ record {
          name = query_name;
          rdclass = s.rdclass;
          rdtype = s.rdtype;
          ttl = s.ttl;
          items = s.items;
        }
          ∷ []
  unfolding build_answer
  build_answer_copies query_name s w = elim w.singleton [
    | inl many ↦ ap (λ r. r ∷ []) (add_all-append _ s.items many w.distinct)
    | inr one ↦ ap (λ r. r ∷ []) (add_all-single _ s.items refl one)
  ]

  module _ (zones : Zones names rdatasets) where
    open zones use {Txn, get}

    -- With an SOA record at the apex, the authority section holds that record alone, owned by the
    -- zone's name; its time is the smaller of the set's and of the record's minimum.
    pub build_authority_soa :
        (apex_name : Name) (txn : Txn) (s : Rdataset Rdata) (soa : Rdata) (rest : List Rdata)
        → get txn names.empty soa_type ≡ some s
        → s.items ≡ soa ∷ rest
        → build_authority_with_apex_soa names rdatasets zones apex_name txn
          ≡ record {
            name = apex_name;
            rdclass = in_class;
            rdtype = soa_type;
            ttl = min_ℤ s.ttl (minimum soa);
            items = soa ∷ [];
          }
            ∷ []
    unfolding build_authority_with_apex_soa build_apex_soa
    build_authority_soa apex_name txn s soa rest e k = ground (arith, laws.add_first soa_type soa)
