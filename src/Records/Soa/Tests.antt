-- ===== src/Records/Soa/Tests.antt =====
-- The serials of an SOA at a clock that stands for one reading.
use a_healthy_dns.Base.{
  ℕ, ◌≤◌, ◌<◌, ◌≡◌, refl, inl, inr, true, some, List, [], ◌∷◌, ◌++◌, map, arith, ok,
}
use a_healthy_dns.Base.Int.{pos}
use a_healthy_dns.Base.Text.{Text, codes, split, join}
use a_healthy_dns.Dns.Names.Sample.{sample_names}
use a_healthy_dns.Dns.Rdatasets.Sample.{sample_rdatasets}
use a_healthy_dns.Tools.Clock.{max_uint32, uint32_current_time}
use a_healthy_dns.Records.Soa.{SoaIterator, next_serial, admin_info}
use a_healthy_dns.Records.Soa.Printed.{read_int, soa_numbers, admin_info_reads_back}
use a_healthy_dns.Records.Soa.Serials.{IsRising, next_serial_grows, next_serial_returns}

abbrev readings : List ℕ
readings = 1700000000 ∷ 1700000001 ∷ 1700000003 ∷ []

waited : next_serial 1700000000 readings ≡ ok (some (1700000001, 1700000003 ∷ []))
unfolding next_serial uint32_current_time
waited = refl

next_serial_grows_example :
    (1700000000 < 1700000001) × (1700000001 ≤ max_uint32) × IsRising 1700000001 (1700000003 ∷ [])
next_serial_grows_example =
    next_serial_grows 1700000000 1700000001 readings (1700000003 ∷ [])
      (omega arith, (omega arith, (omega arith, tt))) waited

next_serial_returns_example :
    (serial : ℕ) × (rest : List ℕ) × (next_serial 1700000000 readings ≡ ok (some (serial, rest)))
next_serial_returns_example =
    next_serial_returns 1700000000 readings (omega arith, (omega arith, (omega arith, tt)))
      (inr (inl (omega arith)))

abbrev soa : SoaIterator sample_names sample_rdatasets
soa = record {
  max_interval = pos 30;
  origin_name = record { labels = codes "com" ∷ []; absolute = true };
  primary_ns = codes "ns1.net.";
  last_serial = 0;
}

admin_info_reads_back_example :
    (printed : List Text) × (split b' ' (admin_info sample_names sample_rdatasets soa 1700000001)
      ≡ codes "ns1.net." ∷ (codes "hostmaster." ++ codes "com") ∷ printed)
    × (map read_int printed ≡ soa_numbers sample_names sample_rdatasets soa 1700000001)
unfolding join
admin_info_reads_back_example =
    admin_info_reads_back sample_names sample_rdatasets soa 1700000001 (ground arith) (ground arith)
