-- ===== src/Handler/Tests.antt =====
-- Questions about a small zone.
use a_healthy_dns.Base.{
  sym, subst, ◌≡◌, ◌↔◌, refl, true, false, none, some, List, [], ◌∷◌, arith, ok,
}
use a_healthy_dns.Base.Text.{Text, codes}
use a_healthy_dns.Dns.Names.Sample.{sample_names}
use a_healthy_dns.Dns.Rdatasets.{Rdataset, IsRecordSet}
use a_healthy_dns.Dns.Rdatasets.Sample.{sample_rdatasets, sample_rdatasets-RdatasetsLaws}
use a_healthy_dns.Dns.Zones.Sample.{sample_zones, lookup}
use a_healthy_dns.Dns.Messages.{Question}
use a_healthy_dns.Records.ZoneOrigins.{origin_for}
use a_healthy_dns.Handler.Outcome.{ResponseOutcome, classify_query, refused}
use a_healthy_dns.Handler.Outcome.Nodes.{HasNode}
use a_healthy_dns.Handler.Outcome.Described.{IsServable, IsDecided, classify_query-IsDecided}
use a_healthy_dns.Handler.Outcome.Shape.{refused_iff}
use a_healthy_dns.Handler.Sample.{
  www, example_com, www_example_com, soa_set, a_set, content, origins, www_a, a_set-IsRecordSet,
}

in_example_com : origin_for sample_names origins www_example_com ≡ some example_com
unfolding origin_for
in_example_com = refl

abbrev soa_record : Text
soa_record = codes "soa"

abbrev hinfo_record : Text
hinfo_record = codes "\"RFC8482\" \"\""

-- The one node that is read holds the address set.
www_sets :
    (n : List (Rdataset Text)) (s : Rdataset Text)
    → HasNode sample_names sample_rdatasets sample_zones content www n
    → sample_zones.get_rdataset n 1 1 ≡ some s
    → IsRecordSet sample_rdatasets s
www_sets n s h e =
    let node : a_set ∷ [] ≡ n = let f = h.found in ground arith in
    let read : sample_zones.get_rdataset (a_set ∷ []) 1 1 ≡ some s =
      subst (λ k. sample_zones.get_rdataset k 1 1 ≡ some s) (sym node) e in
    let same : a_set ≡ s = ground arith in
    subst (IsRecordSet sample_rdatasets) same a_set-IsRecordSet

content-IsServable :
    IsServable sample_names sample_rdatasets sample_zones soa_set soa_record hinfo_record www_a
      example_com www content 1
unfolding lookup
content-IsServable = record {
  rest = [];
  apex = refl;
  filled = refl;
  hinfo_read = refl;
  sets = www_sets;
}

classify_query-IsDecided_example :
    IsDecided sample_names sample_rdatasets sample_zones soa_set soa_record hinfo_record www_a
      example_com www content 1
      (classify_query sample_names sample_rdatasets sample_zones www_a content origins)
classify_query-IsDecided_example =
    classify_query-IsDecided sample_names sample_rdatasets sample_zones soa_set soa_record
      hinfo_record www_a content origins example_com sample_rdatasets-RdatasetsLaws refl
      in_example_com content-IsServable

-- The questions of `www.example.com` and of `example.org`.
abbrev org_a : Question sample_names
org_a = record {
  name = record { labels = codes "example" ∷ codes "org" ∷ []; absolute = true };
  rdclass = 1;
  rdtype = 1;
}

abbrev refusal : ResponseOutcome sample_names sample_rdatasets
refusal = record { rcode = refused; is_authoritative = false; answer = []; authority = [] }

org_refused :
    classify_query sample_names sample_rdatasets sample_zones org_a content origins ≡ ok refusal
unfolding classify_query origin_for
org_refused = refl

refused_iff_example :
    ((refusal.rcode ≡ refused) ↔ (origin_for sample_names origins org_a.name ≡ none))
    × ((refusal.is_authoritative ≡ false) ↔ (origin_for sample_names origins org_a.name ≡ none))
refused_iff_example =
    refused_iff sample_names sample_rdatasets sample_zones org_a content origins refusal refl
      org_refused
