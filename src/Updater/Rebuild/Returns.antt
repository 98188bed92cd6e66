-- ===== src/Updater/Rebuild/Returns.antt =====
-- A call of `initialize_zone` returns.
use a_healthy_dns.Base.{ℕ, ◌≡◌, [], ◌∷◌, ok}
use a_healthy_dns.Dns.Names.{Names}
use a_healthy_dns.Dns.Rdatasets.{Rdatasets, Rdataset, in_class, soa_type}
use a_healthy_dns.Dns.Zones.{Zones}
use a_healthy_dns.Records.Time.{calculate_soa_ttl}
use a_healthy_dns.Records.Soa.{SoaIterator, admin_info}
use a_healthy_dns.Updater.State.{Updater}

module _ {names : Names} {rdatasets : Rdatasets} (zones : Zones names rdatasets) where
  open names use {Name}
  open zones use {Txn, add}

  -- The library lets a set of class IN and of the type be written at the name.
  abbrev pub IsWritable : Name → ℕ → Type 0
  IsWritable name rdtype =
      (txn : Txn) (s : Rdataset rdatasets.Rdata)
      → s.rdclass ≡ in_class
      → s.rdtype ≡ rdtype
      → (after : Txn) × (add txn name s ≡ ok after)

  -- The library reads the text of the SOA record with any serial.
  abbrev pub IsReadable : SoaIterator names rdatasets → Type 0
  IsReadable self =
      (serial : ℕ)
      → (s : Rdataset rdatasets.Rdata) × (rdatasets.from_text in_class soa_type
            (calculate_soa_ttl self.max_interval) (admin_info names rdatasets self serial ∷ [])
          ≡ ok s)
