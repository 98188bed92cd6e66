-- ===== src/Handler/Packet.antt =====
-- From a packet to what is sent: `DnsServerUdpHandler.handle` and what it calls. Logging is left out.
pub mod Header
pub mod Replies
pub mod Refusals
pub mod Served
pub mod Answered
mod Tests
use Prim.Native.Nat.{bit_and, bit_or}
use mathlib.Core.List.{foldl}
use a_healthy_dns.Base.{
  ℕ, ◌+◌, ◌*◌, Bool, true, false, not, Option, none, some, List, [], ◌∷◌, leb, ◌==◌, if◌then◌else◌,
  length, take, drop, Result, ok, raised, ◌>>=◌,
}
use a_healthy_dns.Dns.Names.{Names}
use a_healthy_dns.Dns.Rdatasets.{Rdatasets, in_class}
use a_healthy_dns.Dns.Zones.{Zones}
use a_healthy_dns.Dns.Messages.{
  Bytes, Question, Query, Parsed, parsed, short_header, malformed, Messages,
}
use a_healthy_dns.Records.ZoneOrigins.{ZoneOrigins}
use a_healthy_dns.Handler.Outcome.{ResponseOutcome, classify_query, formerr, notimp, refused}

abbrev pub classic_udp_payload_size : ℕ
classic_udp_payload_size = 512

abbrev pub dns_header_length : ℕ
dns_header_length = 12

abbrev pub dns_opcode_mask : ℕ
dns_opcode_mask = 0x7800

-- `dns.flags.QR`, `AA` and `RD`, and the opcode `QUERY`
abbrev pub qr_flag : ℕ
qr_flag = 0x8000

abbrev pub aa_flag : ℕ
aa_flag = 0x400

abbrev pub rd_flag : ℕ
rd_flag = 0x100

abbrev pub query_opcode : ℕ
query_opcode = 0

-- `int.from_bytes(data, "big")`
pub from_bytes : Bytes → ℕ
from_bytes = foldl (λ acc byte. acc * 256 + byte) 0

-- `data[2:4]` and `data[:2]` as numbers
abbrev pub header_flags : Bytes → ℕ
header_flags datagram = from_bytes (drop 2 (take 4 datagram))

abbrev pub header_id : Bytes → ℕ
header_id datagram = from_bytes (take 2 datagram)

unfoldable pub drop_inbound_response_packet : Bytes → Bool
unfolding from_bytes
drop_inbound_response_packet datagram =
    if leb dns_header_length (length datagram)
    then not (bit_and (header_flags datagram) qr_flag == 0)
    else false

pub formerr_flags : ℕ → ℕ
formerr_flags request_flags =
    bit_or qr_flag (bit_and request_flags (bit_or dns_opcode_mask rd_flag))

module _ (names : Names) (rdatasets : Rdatasets) (messages : Messages names rdatasets) where
  open messages use {
    Message, from_wire, make_response, new_message, get_flags, with_flags, with_rcode,
    extend_answer, extend_authority, to_wire,
  }

  pub apply_response_outcome : Message → ResponseOutcome names rdatasets → Message
  apply_response_outcome response outcome =
      let marked : Message =
        if outcome.is_authoritative
        then with_flags response (bit_or (get_flags response) aa_flag)
        else response in
      extend_answer (extend_authority (with_rcode marked outcome.rcode) outcome.authority)
        outcome.answer

  pub make_formerr_response_from_header : Bytes → Message
  unfolding formerr_flags from_bytes
  make_formerr_response_from_header datagram =
      with_rcode
        (with_flags (new_message (header_id datagram)) (formerr_flags (header_flags datagram)))
        formerr

  -- How `_parse_query` ends: with the query, `_DropQuery` or `_RespondWith`.
  pub data ParseOutcome : Type 0 where
    query : Query names → ParseOutcome
    drop_query : ParseOutcome
    respond_with : Message → ParseOutcome

  pub parse_query : Bytes → ParseOutcome
  unfolding make_formerr_response_from_header
  parse_query datagram = elim (from_wire datagram) [
    | parsed q ↦ query q
    | short_header ↦ drop_query
    | malformed ↦ respond_with (make_formerr_response_from_header datagram)
  ]

  pub response_to_udp_wire : Message → Result Bytes
  response_to_udp_wire response = to_wire response classic_udp_payload_size true

  -- How `_validated_question` ends: with the question, or `_QuestionRejected` with its rcode.
  pub data QuestionOutcome : Type 0 where
    accepted : Question names → QuestionOutcome
    rejected : ℕ → QuestionOutcome

  only_question : List (Question names) → QuestionOutcome
  only_question [] = rejected formerr
  only_question (question ∷ []) =
      if not (question.rdclass == in_class) then rejected refused else accepted question
  only_question (question ∷ (other ∷ more)) = rejected formerr

  -- The question count is tested before the class of the one question.
  pub validated_question : Query names → QuestionOutcome
  unfolding only_question
  validated_question q =
      if not (q.opcode == query_opcode) then rejected notimp else only_question q.question

  module _ (zones : Zones names rdatasets) where
    -- `self.server` and what `handle` reads of it
    pub record Server : Type 0 where
      pub zone : zones.Zone
      pub zone_origins : ZoneOrigins names

    pub update_response : Server → Message → Question names → Result Message
    unfolding apply_response_outcome
    update_response server response question = do
      outcome ← classify_query names rdatasets zones question server.zone server.zone_origins
      ok (apply_response_outcome response outcome)

    -- The `try … except _QuestionRejected … else` of `handle`
    pub respond : Server → Message → QuestionOutcome → Result Message
    unfolding update_response
    respond server response (rejected rcode) = ok (with_rcode response rcode)
    respond server response (accepted question) = update_response server response question

    pub send : Result Message → Result (List Bytes)
    send response = do message ← response; wire ← response_to_udp_wire message; ok (wire ∷ [])

    answer : Server → Query names → Result (List Bytes)
    unfolding send respond validated_question response_to_udp_wire
    answer server q = elim (make_response q) [
      | none ↦ ok []
      | some response ↦ send (respond server response (validated_question q))
    ]

    after_parse : Server → ParseOutcome → Result (List Bytes)
    unfolding answer send
    after_parse server drop_query = ok []
    after_parse server (respond_with response) = send (ok response)
    after_parse server (query q) = answer server q

    -- The datagrams that `handle` sends back for a packet.
    pub handle : Server → Bytes → Result (List Bytes)
    unfolding after_parse parse_query drop_inbound_response_packet
    handle server datagram =
        if drop_inbound_response_packet datagram
        then ok []
        else after_parse server (parse_query datagram)
