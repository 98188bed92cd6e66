-- ===== src/Handler/Packet/Replies.antt =====
-- What is sent back for each kind of packet.
use a_healthy_dns.Base.{
  ℕ, ◌≡◌, refl, true, false, none, some, List, [], ◌∷◌, arith, Result, ok, ◌>>=◌,
}
use a_healthy_dns.Dns.Names.{Names}
use a_healthy_dns.Dns.Rdatasets.{Rdatasets}
use a_healthy_dns.Dns.Zones.{Zones}
use a_healthy_dns.Dns.Messages.{
  Bytes, Query, parsed, short_header, malformed, Messages, MessagesLaws, IsPrintOf,
}
use a_healthy_dns.Handler.Packet.{
  Server, drop_inbound_response_packet, validated_question, send, respond, handle,
  make_formerr_response_from_header, response_to_udp_wire,
}

module _ {names : Names} {rdatasets : Rdatasets} (messages : Messages names rdatasets) where
  open messages use {Message, get_id, get_rcode, get_answer, get_authority, to_wire}

  -- The datagram that prints a message, cut to the classic size.
  pub printed : Message → Result (List Bytes)
  printed m = do wire ← to_wire m 512 true; ok (wire ∷ [])

  -- What every reply without records is: the number, the code, and empty sections.
  pub record IsBare (m : Message) (id rcode : ℕ) : Type 0 where
    pub same_id : get_id m ≡ id
    pub code : get_rcode m ≡ rcode
    pub no_answer : get_answer m ≡ []
    pub no_authority : get_authority m ≡ []

module _ {names : Names} {rdatasets : Rdatasets} (messages : Messages names rdatasets)
    (laws : MessagesLaws messages) (zones : Zones names rdatasets)
    (server : Server names rdatasets messages zones) where
  open messages use {
    Message, from_wire, make_response, get_id, get_flags, get_rcode, get_answer, get_authority,
    to_wire,
  }

  abbrev pub sent : Bytes → Result (List Bytes)
  sent = handle names rdatasets messages zones server

  module _ (datagram : Bytes) where
    pub sent_dropped : drop_inbound_response_packet datagram ≡ true → sent datagram ≡ ok []
    unfolding handle
    sent_dropped d = ground arith

    module _ (kept : drop_inbound_response_packet datagram ≡ false) where
      pub sent_short : from_wire datagram ≡ short_header → sent datagram ≡ ok []
      unfolding handle
      sent_short e = ground arith

      pub sent_malformed :
          from_wire datagram ≡ malformed
          → sent datagram
            ≡ send names rdatasets messages zones
                (ok (make_formerr_response_from_header names rdatasets messages datagram))
      unfolding handle
      sent_malformed e = ground arith

      pub sent_unanswerable :
          (q : Query names)
          → from_wire datagram ≡ parsed q
          → make_response q ≡ none
          → sent datagram ≡ ok []
      unfolding handle
      sent_unanswerable q e n = ground arith

      pub sent_parsed :
          (q : Query names) (m : Message)
          → from_wire datagram ≡ parsed q
          → make_response q ≡ some m
          → sent datagram
            ≡ send names rdatasets messages zones (
                respond names rdatasets messages zones server m
                  (validated_question names rdatasets messages q))
      unfolding handle
      sent_parsed q m e n = ground arith

  pub send-printed : (m : Message) → send names rdatasets messages zones (ok m) ≡ printed messages m
  unfolding send response_to_udp_wire printed
  send-printed m = refl

  -- A message that can be printed is sent as one datagram that prints it.
  pub printed-IsPrintOf :
      (m : Message)
      → laws.IsPrintable m
      → (wire : Bytes) × (printed messages m ≡ ok (wire ∷ [])) × IsPrintOf messages m 512 wire
  unfolding printed
  printed-IsPrintOf m p =
      let (wire, e, k) = laws.to_wire_prints m 512 (omega arith) (omega arith) p in
      (wire, rw e refl, k)
