-- ===== src/Handler/Packet/Refusals.antt =====
-- Packets that are answered with a code alone: those that do not parse, and rejected questions.
use a_healthy_dns.Base.{
  ℕ, ◌/◌, ◌<◌, ◌≡◌, ◌≢◌, refl, ap, ◌∙◌, false, some, List, [], ◌∷◌, arith, length, All, ok,
}
use a_healthy_dns.Dns.Names.{Names}
use a_healthy_dns.Dns.Rdatasets.{Rdatasets, in_class}
use a_healthy_dns.Dns.Zones.{Zones}
use a_healthy_dns.Dns.Messages.{
  Bytes, Question, Query, parsed, malformed, Messages, MessagesLaws, IsPrintOf,
}
use a_healthy_dns.Handler.Outcome.{formerr, notimp, refused}
use a_healthy_dns.Handler.Packet.{
  Server, drop_inbound_response_packet, only_question, validated_question, rejected, send, respond,
  handle, header_id, header_flags, from_bytes, formerr_flags, make_formerr_response_from_header,
}
use a_healthy_dns.Handler.Packet.Header.{formerr_sum, formerr_flags_lem}
use a_healthy_dns.Handler.Packet.Replies.{
  sent_malformed, sent_parsed, IsBare, send-printed, printed-IsPrintOf,
}

header_flags-lt : (d : Bytes) → All (λ b. b < 256) d → header_flags d < 65536
unfolding from_bytes
header_flags-lt [] h = omega arith
header_flags-lt (a ∷ []) h = omega arith
header_flags-lt (a ∷ (b ∷ [])) h = omega arith
header_flags-lt (a ∷ (b ∷ (c ∷ []))) h = omega arith
header_flags-lt (a ∷ (b ∷ (c ∷ (e ∷ d)))) h = omega arith

header_id-lt : (d : Bytes) → All (λ b. b < 256) d → header_id d < 65536
unfolding from_bytes
header_id-lt [] h = omega arith
header_id-lt (a ∷ []) h = omega arith
header_id-lt (a ∷ (b ∷ d)) h = omega arith

module _ {names : Names} {rdatasets : Rdatasets} (messages : Messages names rdatasets)
    (laws : MessagesLaws messages) (zones : Zones names rdatasets)
    (server : Server names rdatasets messages zones) where
  open messages use {
    Message, from_wire, make_response, get_id, get_flags, get_rcode, get_answer, get_authority,
    to_wire,
  }

  formerr_reply : Bytes → Message
  formerr_reply = make_formerr_response_from_header names rdatasets messages

  formerr-IsBare : (d : Bytes) → IsBare messages (formerr_reply d) (header_id d) formerr
  unfolding formerr_reply make_formerr_response_from_header
  formerr-IsBare d =
      let m = messages.new_message (header_id d) in
      let f = formerr_flags (header_flags d) in
      let m' = messages.with_flags m f in
      let a = laws.with_flags_rest m f in
      let b = laws.with_rcode_rest m' formerr in
      record {
        same_id = b.0 ∙ a.0 ∙ laws.id_new (header_id d);
        code = laws.rcode_with_rcode m' formerr (omega arith);
        no_answer = b.1 ∙ a.1 ∙ laws.answer_new (header_id d);
        no_authority = b.2 ∙ a.2 ∙ laws.authority_new (header_id d);
      }

  formerr_reply_flags :
      (d : Bytes)
      → All (λ b. b < 256) d
      → get_flags (formerr_reply d) / 16 ≡ formerr_sum (header_flags d) / 16
  unfolding formerr_reply make_formerr_response_from_header
  formerr_reply_flags d h =
      let m = messages.new_message (header_id d) in
      let f = formerr_flags (header_flags d) in
      laws.flags_with_rcode (messages.with_flags m f) formerr (omega arith)
      ∙ ap (λ x. x / 16)
          (laws.flags_with_flags m f ∙ formerr_flags_lem (header_flags d) (header_flags-lt d h))

  formerr-IsPrintable : (d : Bytes) → All (λ b. b < 256) d → laws.IsPrintable (formerr_reply d)
  unfolding formerr_reply make_formerr_response_from_header
  formerr-IsPrintable d h =
      let f = formerr_flags_lem (header_flags d) (header_flags-lt d h) in
      laws.printable_rcode _ formerr (omega arith) (
        laws.printable_flags _ (formerr_flags (header_flags d)) (omega (arith, f))
          (laws.printable_new (header_id d) (header_id-lt d h)))

  -- A packet of bytes that is not taken for a response and that the library finds malformed is
  -- answered by one datagram, which prints in 512 bytes a message with FORMERR and empty sections. The
  -- message has the packet's number; of the
  -- flags above the code, QR is set, the opcode and RD are the packet's, and the others are clear.
  pub handle_malformed :
      (datagram : Bytes)
      → All (λ b. b < 256) datagram
      → drop_inbound_response_packet datagram ≡ false
      → from_wire datagram ≡ malformed
      → (m : Message) × (wire : Bytes) × (handle names rdatasets messages zones server datagram
          ≡ ok (wire ∷ []))
        × IsPrintOf messages m 512 wire
        × IsBare messages m (header_id datagram) formerr
        × (get_flags m / 16 ≡ formerr_sum (header_flags datagram) / 16)
  unfolding formerr_reply
  handle_malformed d h k e =
      let m = formerr_reply d in
      let (wire, sent, print) =
        printed-IsPrintOf messages laws zones server m (formerr-IsPrintable d h) in
      (
        m,
        wire,
        sent_malformed messages laws zones server d k e
            ∙ send-printed messages laws zones server m
            ∙ sent,
        print,
        formerr-IsBare d,
        formerr_reply_flags d h,
      )

  -- Why a parsed query is rejected, and with which code: its opcode is not QUERY, it has not exactly
  -- one question, or the question's class is not IN.
  pub data Rejects (q : Query names) : ℕ → Type 0 where
    bad_opcode : q.opcode ≢ 0 → Rejects q notimp
    bad_count : q.opcode ≡ 0 → length q.question ≢ 1 → Rejects q formerr
    bad_class :
        (x : Question names)
        → q.opcode ≡ 0
        → q.question ≡ x ∷ []
        → x.rdclass ≢ in_class
        → Rejects q refused

  wrong_count :
      (xs : List (Question names))
      → length xs ≢ 1
      → only_question names rdatasets messages xs ≡ rejected formerr
  unfolding only_question
  wrong_count [] h = refl
  wrong_count (x ∷ []) h = absurd (h refl)
  wrong_count (x ∷ (y ∷ xs)) h = refl

  rejected_with :
      (q : Query names) (code : ℕ)
      → Rejects q code
      → (validated_question names rdatasets messages q ≡ rejected code) × (code < 16)
  unfolding validated_question
  rejected_with q code (bad_opcode o) = (ground arith, omega arith)
  rejected_with q code (bad_count o c) = (ground (arith, wrong_count q.question c), omega arith)
  rejected_with q code (bad_class x o e c) = (ground arith, omega arith)

  -- A parsed query to which the library builds a response, and which has another opcode than
  -- QUERY, not exactly one question, or a question of another class than IN, is answered by one
  -- datagram, which prints in 512 bytes a message with the code for that (NOTIMP, FORMERR or REFUSED), the query's number and empty
  -- sections, marked as a response.
  pub handle_rejected :
      (datagram : Bytes) (q : Query names) (response : Message) (code : ℕ)
      → drop_inbound_response_packet datagram ≡ false
      → from_wire datagram ≡ parsed q
      → make_response q ≡ some response
      → Rejects q code
      → (m : Message) × (wire : Bytes) × (handle names rdatasets messages zones server datagram
          ≡ ok (wire ∷ []))
        × IsPrintOf messages m 512 wire
        × IsBare messages m q.id code
        × (get_flags m / 0x8000 ≡ 1)
  unfolding respond
  handle_rejected d q response code k e n r =
      let (v, small) = rejected_with q code r in
      let b = laws.with_rcode_rest response code in
      let empty = laws.response_empty q response n in
      let m = messages.with_rcode response code in
      let p = laws.printable_rcode response code small (laws.printable_response d q response e n) in
      let (wire, sent, print) = printed-IsPrintOf messages laws zones server m p in
      (
        m,
        wire,
        sent_parsed messages laws zones server d k q response e n
            ∙ ap
                (λ x.
                  send names rdatasets messages zones
                    (respond names rdatasets messages zones server response x))
                v
            ∙ send-printed messages laws zones server m
            ∙ sent,
        print,
        record {
          same_id = b.0 ∙ laws.response_id q response n;
          code = laws.rcode_with_rcode response code small;
          no_answer = b.1 ∙ empty.0;
          no_authority = b.2 ∙ empty.1;
        },
        omega (
          arith,
          laws.flags_with_rcode response code small,
          (laws.response_flags q response n).1,
        ),
      )
