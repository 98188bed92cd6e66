-- ===== src/Handler/Sample.antt =====
-- A small zone, and a question about it.
use a_healthy_dns.Base.{refl, inl, true, false, List, [], ◌∷◌}
use a_healthy_dns.Base.Int.{pos}
use a_healthy_dns.Base.Text.{Text, codes}
use a_healthy_dns.Dns.Names.Sample.{Labels, sample_names}
use a_healthy_dns.Dns.Rdatasets.{Rdataset, IsRecordSet}
use a_healthy_dns.Dns.Rdatasets.Sample.{sample_rdatasets}
use a_healthy_dns.Dns.Zones.Sample.{Entry}
use a_healthy_dns.Dns.Messages.{Question}
use a_healthy_dns.Records.ZoneOrigins.{ZoneOrigins}

abbrev pub apex : Labels
apex = record { labels = []; absolute = false }

abbrev pub www : Labels
www = record { labels = codes "www" ∷ []; absolute = false }

abbrev pub example_com : Labels
example_com = record { labels = codes "example" ∷ codes "com" ∷ []; absolute = true }

abbrev pub www_example_com : Labels
www_example_com = record {
  labels = codes "www" ∷ codes "example" ∷ codes "com" ∷ [];
  absolute = true;
}

abbrev pub soa_set : Rdataset Text
soa_set = record { rdclass = 1; rdtype = 6; ttl = pos 1800; items = codes "soa" ∷ [] }

abbrev pub a_set : Rdataset Text
a_set = record {
  rdclass = 1;
  rdtype = 1;
  ttl = pos 60;
  items = codes "10.0.0.1" ∷ codes "10.0.0.2" ∷ [];
}

abbrev pub content : List Entry
content =
    record { owner = apex; rdataset = soa_set } ∷ record { owner = www; rdataset = a_set } ∷ []

abbrev pub origins : ZoneOrigins sample_names
origins = record { primary = example_com; origins = example_com ∷ [] }

abbrev pub www_a : Question sample_names
www_a = record { name = www_example_com; rdclass = 1; rdtype = 1 }

pub a_set-IsRecordSet : IsRecordSet sample_rdatasets a_set
a_set-IsRecordSet = record { distinct = (refl, (refl, tt)); singleton = inl refl }
