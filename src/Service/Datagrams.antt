-- ===== src/Service/Datagrams.antt =====
-- From the health checks to the datagram.
use mathlib.Core.List.{Memᴰ}
use a_healthy_dns.Base.{
  ℕ, ◌≡◌, inl, inr, Bool, true, false, some, List, [], ◌∷◌, All, All-mem, Result, ok,
}
use a_healthy_dns.Base.Int.{ℤ}
use a_healthy_dns.Dns.Names.{Names, NamesLaws}
use a_healthy_dns.Dns.Rdatasets.{Rdatasets, RdatasetsLaws, Rdataset}
use a_healthy_dns.Dns.Zones.{Zones, ZonesLaws}
use a_healthy_dns.Dns.Messages.{Bytes, Question, Query, parsed, Messages, MessagesLaws, IsPrintOf}
use a_healthy_dns.Unicode.{Unicode, AsciiLaws}
use a_healthy_dns.Records.Dnssec.{RrSigKey}
use a_healthy_dns.Records.HealthyIp.{AHealthyIp}
use a_healthy_dns.Records.HealthyRecord.{AHealthyRecord}
use a_healthy_dns.Records.HealthyRecord.Sets.{Publishes}
use a_healthy_dns.Records.ZoneOrigins.{ZoneOrigins}
use a_healthy_dns.Updater.Rebuild.Contents.{Keeps}
use a_healthy_dns.Updater.Current.{IsSound}
use a_healthy_dns.Threaded.{is_alive, ThreadedUpdater, start, Run}
use a_healthy_dns.Handler.Packet.{Server, drop_inbound_response_packet, handle}
use a_healthy_dns.Handler.Packet.Served.{IsQuestion, Carries, handle_served}
use a_healthy_dns.Service.Answers.{AsksFor, answer_of}
use a_healthy_dns.Service.Running.{classify_query-IsAnswered}

module _ {names : Names} {Key : Type 0} {rdatasets : Rdatasets}
    (messages : Messages names rdatasets) (message_laws : MessagesLaws messages)
    (zones : Zones names rdatasets) (name_laws : NamesLaws names) {origin : names.Name}
    (laws : ZonesLaws zones origin) (set_laws : RdatasetsLaws rdatasets)
    (sign : zones.Txn → RrSigKey Key → Result zones.Txn)
    (keeps : Keeps zones name_laws laws set_laws sign) (u : Unicode) (ascii : AsciiLaws u)
    (s t v : ThreadedUpdater names Key rdatasets zones) (readings rest : List ℕ) (now : ℤ)
    (idle : is_alive s.updater_thread ≡ false)
    (sound : IsSound zones name_laws laws set_laws s.updater)
    (started : start names Key rdatasets zones sign s readings now ≡ ok (some (t, rest)))
    (run : Run names Key rdatasets zones sign u t v) (alive : is_alive v.updater_thread ≡ true)
    (z : ZoneOrigins names) where
  -- The server of the running updater.
  abbrev pub server : Server names rdatasets messages zones
  server = record { zone = v.updater.zone; zone_origins = z }

  -- For an updater with an NS set and well-formed records of different names, and a signer that keeps
  -- the A, NS and SOA sets: after a `start` that returns, as long as the thread is alive, a datagram
  -- that is not dropped as a response, is parsed as a query with opcode QUERY and one question of
  -- class IN, to which the library builds a response, and that asks for the addresses of a record of
  -- the updater, by its name in any of the configured zones, is answered by exactly one datagram of at
  -- most 512 bytes, if an address of the record is healthy and the sets of its healthy addresses can
  -- be printed. The datagram prints a message with the query's number, the code NOERROR and AA, whose
  -- one answer set has just the addresses that the updater holds healthy. Read back, it has the
  -- message's number, code, QR and AA, and no other records; it has all of them if the message fits
  -- into 512 bytes, and TC if it does not.
  pub handle-Publishes :
      (datagram : Bytes) (q : Query names) (x : Question names) (response : messages.Message)
      (r : AHealthyRecord names) (y : AHealthyIp)
      → drop_inbound_response_packet datagram ≡ false
      → messages.from_wire datagram ≡ parsed q
      → messages.make_response q ≡ some response
      → IsQuestion messages message_laws zones server q x
      → Memᴰ r v.updater.a_recs
      → AsksFor origin z x r
      → Memᴰ y r.healthy_ips
      → y.is_healthy ≡ true
      → ((a : Rdataset rdatasets.Rdata)
          → Publishes names rdatasets set_laws v.updater.max_interval r a
          → All message_laws.IsPrintableSet (answer_of {names = names} set_laws x.name a).answer)
      → (a : Rdataset rdatasets.Rdata) × Publishes names rdatasets set_laws v.updater.max_interval r
          a
        × (m : messages.Message) × (wire : Bytes) × (handle names rdatasets messages zones server
              datagram
            ≡ ok (wire ∷ []))
        × IsPrintOf messages m 512 wire
        × Carries messages message_laws zones server q.id (answer_of set_laws x.name a) m
  handle-Publishes datagram q x response r y kept read built question m asks n healthy prints =
      elim (classify_query-IsAnswered zones name_laws laws set_laws sign keeps u ascii s t v
        readings rest now idle sound started run alive z x r m asks) [
          | inl (unhealthy, no_answer) ↦
              absurd (clash (All-mem _ r.healthy_ips unhealthy n) healthy)
          | inr (a, p, classified) ↦
              let (sent, wire, handled, print, carries) =
                handle_served messages message_laws zones server datagram q x response
                  (answer_of set_laws x.name a) kept read built question classified (prints a p)
                  tt in
              (a, p, sent, wire, handled, print, carries)
        ]
    where
      clash : {b : Bool} → b ≡ false → b ≡ true → ⊥
      clash h k = cc
