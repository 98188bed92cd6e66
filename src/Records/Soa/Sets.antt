-- ===== src/Records/Soa/Sets.antt =====
-- The type of the record set that `iter_soa_record` gives.
use a_healthy_dns.Base.{ℕ, ◌≡◌, arith, Option, none, some, List, [], ◌∷◌, ok, >>=-eq-ok}
use a_healthy_dns.Dns.Names.{Names}
use a_healthy_dns.Dns.Rdatasets.{Rdatasets, RdatasetsLaws, Rdataset, in_class, soa_type}
use a_healthy_dns.Records.Time.{calculate_soa_ttl}
use a_healthy_dns.Records.Soa.{SoaIterator, next_serial, soa_rdataset, admin_info, next_soa_record}

module _ {names : Names} {rdatasets : Rdatasets} (laws : RdatasetsLaws rdatasets) where
  made_set-type :
      (self next : SoaIterator names rdatasets) (o : Option (ℕ × List ℕ))
      (s : Rdataset rdatasets.Rdata) (rest : List ℕ)
      → soa_rdataset names rdatasets self o ≡ ok (some (s, next, rest))
      → s.rdtype ≡ soa_type
  unfolding soa_rdataset
  made_set-type self next none s rest h = cc
  made_set-type self next (some (serial, readings)) s rest h =
      let ttl = calculate_soa_ttl self.max_interval in
      let info = admin_info names rdatasets self serial ∷ [] in
      let (t, made, same) = >>=-eq-ok (rdatasets.from_text in_class soa_type ttl info) _ h in
      laws.from_text_type in_class soa_type ttl info s (ground arith)

  pub next_soa_record-type :
      (self next : SoaIterator names rdatasets) (s : Rdataset rdatasets.Rdata)
      (readings rest : List ℕ)
      → next_soa_record names rdatasets self readings ≡ ok (some (s, next, rest))
      → s.rdtype ≡ soa_type
  unfolding next_soa_record
  next_soa_record-type self next s readings rest h =
      let (o, found, made) = >>=-eq-ok (next_serial self.last_serial readings) _ h in
      made_set-type self next o s rest made
