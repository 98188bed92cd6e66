-- ===== src/Handler/Packet/Tests.antt =====
-- Packets sent to the server of a small zone.
use a_healthy_dns.Base.{
  ◌⊎◌, sym, subst, ℕ, ◌<◌, ◌≡◌, ◌/◌, refl, true, false, List, [], ◌∷◌, ◌++◌, ◌+◌, ◌*◌, All, all_iff,
  ltb, ltb→lt, arith, Result, ok,
}
use a_healthy_dns.Base.Text.{codes}
use a_healthy_dns.Dns.Names.Sample.{sample_names}
use a_healthy_dns.Dns.Rdatasets.Sample.{sample_rdatasets, sample_rdatasets-RdatasetsLaws}
use a_healthy_dns.Dns.Zones.Sample.{sample_zones}
use a_healthy_dns.Dns.Messages.{Bytes, Question, Query, parsed, IsPrintOf}
use a_healthy_dns.Dns.Messages.Sample.{Reply, sample_messages}
use a_healthy_dns.Dns.Messages.Sample.Laws.{sample_messages-MessagesLaws, sample_set-IsPrintableSet}
use a_healthy_dns.Records.ZoneOrigins.{origin_for, relativize}
use a_healthy_dns.Handler.Outcome.{
  ResponseOutcome, build_answer, classify_in_zone, classify_existing_node_query, classify_query,
  formerr, notimp,
}
use a_healthy_dns.Handler.Outcome.Records.{build_answer_copies}
use a_healthy_dns.Handler.Packet.{
  Server, drop_inbound_response_packet, handle, header_id, header_flags,
}
use a_healthy_dns.Handler.Packet.Header.{formerr_sum}
use a_healthy_dns.Handler.Packet.Replies.{IsBare}
use a_healthy_dns.Handler.Packet.Refusals.{bad_opcode, handle_malformed, handle_rejected}
use a_healthy_dns.Handler.Packet.Answered.{IsUnanswered, handle-IsAnswered}
use a_healthy_dns.Handler.Packet.Served.{Carries, handle_served}
use a_healthy_dns.Handler.Sample.{
  www_example_com, a_set, content, origins, www_a, a_set-IsRecordSet,
}

abbrev server : Server sample_names sample_rdatasets sample_messages sample_zones
server = record { zone = content; zone_origins = origins }

-- A query for the A records of `www.example.com`, and headers that begin other packets.
abbrev header : ℕ → ℕ → Bytes
header hi lo = 18 ∷ 52 ∷ hi ∷ lo ∷ 0 ∷ 1 ∷ 0 ∷ 0 ∷ 0 ∷ 0 ∷ 0 ∷ 0 ∷ []

abbrev question_bytes : Bytes
question_bytes = 3 ∷ codes "www" ++ 7 ∷ codes "example" ++ 3 ∷ codes "com" ++ 0 ∷ 0 ∷ 1 ∷ 0 ∷ 1 ∷ []

abbrev www_packet : Bytes
www_packet = header 1 0 ++ question_bytes

abbrev status_packet : Bytes
status_packet = header 17 0 ++ question_bytes

abbrev www_query : Query sample_names
www_query = record { id = 4660; opcode = 0; question = www_a ∷ [] }

abbrev status_query : Query sample_names
status_query = record { id = 4660; opcode = 2; question = www_a ∷ [] }

abbrev response_to : ℕ → Reply
response_to opcode = record {
  id = 4660;
  flags = 0x8000 + opcode * 0x800;
  answer = [];
  authority = [];
}

abbrev reply_to : Bytes → Result (List Bytes)
reply_to datagram =
    handle sample_names sample_rdatasets sample_messages sample_zones server datagram

abbrev outcome : ResponseOutcome sample_names sample_rdatasets
outcome = record {
  rcode = 0;
  is_authoritative = true;
  answer = build_answer sample_names sample_rdatasets www_example_com a_set;
  authority = [];
}

www_kept : drop_inbound_response_packet www_packet ≡ false
unfolding drop_inbound_response_packet
www_kept = refl

www_outcome :
    classify_query sample_names sample_rdatasets sample_zones www_a content origins ≡ ok outcome
unfolding classify_query origin_for relativize classify_in_zone classify_existing_node_query
www_outcome = refl

outcome-IsPrintable :
    All sample_messages-MessagesLaws.IsPrintableSet
      (build_answer sample_names sample_rdatasets www_example_com a_set)
outcome-IsPrintable =
    subst (All sample_messages-MessagesLaws.IsPrintableSet)
      (sym (
        build_answer_copies sample_names sample_rdatasets sample_rdatasets-RdatasetsLaws
          www_example_com a_set a_set-IsRecordSet))
      (sample_set-IsPrintableSet _, tt)

handle_served_example :
    (m : Reply) × (wire : Bytes) × (reply_to www_packet ≡ ok (wire ∷ []))
    × IsPrintOf sample_messages m 512 wire
    × Carries sample_messages sample_messages-MessagesLaws sample_zones server 4660 outcome m
handle_served_example =
    handle_served sample_messages sample_messages-MessagesLaws sample_zones server www_packet
      www_query www_a (response_to 0) outcome www_kept refl refl
      (record { opcode = refl; single = refl; rdclass = refl; absolute = refl }) www_outcome
      outcome-IsPrintable tt

status_kept : drop_inbound_response_packet status_packet ≡ false
unfolding drop_inbound_response_packet
status_kept = refl

handle_rejected_example :
    (m : Reply) × (wire : Bytes) × (reply_to status_packet ≡ ok (wire ∷ []))
    × IsPrintOf sample_messages m 512 wire
    × IsBare sample_messages m 4660 notimp
    × (m.flags / 0x8000 ≡ 1)
handle_rejected_example =
    handle_rejected sample_messages sample_messages-MessagesLaws sample_zones server status_packet
      status_query (response_to 2) notimp status_kept refl refl (bad_opcode (omega arith))

bare_kept : drop_inbound_response_packet (header 1 0) ≡ false
unfolding drop_inbound_response_packet
bare_kept = refl

header-IsBytes : All (λ b. b < 256) (header 1 0)
header-IsBytes =
    (all_iff (λ c. ltb c 256) (λ c. ((λ e. ltb→lt c 256 e), λ l. ground arith)) (header 1 0)).0 refl

handle_malformed_example :
    (m : Reply) × (wire : Bytes) × (reply_to (header 1 0) ≡ ok (wire ∷ []))
    × IsPrintOf sample_messages m 512 wire
    × IsBare sample_messages m (header_id (header 1 0)) formerr
    × (m.flags / 16 ≡ formerr_sum (header_flags (header 1 0)) / 16)
handle_malformed_example =
    handle_malformed sample_messages sample_messages-MessagesLaws sample_zones server (header 1 0)
      header-IsBytes bare_kept refl

www_packet-IsBytes : All (λ b. b < 256) www_packet
www_packet-IsBytes =
    (all_iff (λ c. ltb c 256) (λ c. ((λ e. ltb→lt c 256 e), λ l. ground arith)) www_packet).0 refl

www_question :
    (q : Query sample_names) (x : Question sample_names)
    → sample_messages.from_wire www_packet ≡ parsed q
    → q.question ≡ x ∷ []
    → x ≡ www_a
www_question q x e single =
    let same : www_query ≡ q = ground arith in
    let one : www_a ∷ [] ≡ x ∷ [] = subst (λ k. k.question ≡ x ∷ []) (sym same) single in
    ground arith

handle-IsAnswered_example :
    (IsUnanswered sample_messages sample_messages-MessagesLaws sample_zones server www_packet
      × (reply_to www_packet ≡ ok []))
    ⊎ ((¬ IsUnanswered sample_messages sample_messages-MessagesLaws sample_zones server www_packet)
        × ((m : Reply) × (wire : Bytes) × (reply_to www_packet ≡ ok (wire ∷ []))
            × IsPrintOf sample_messages m 512 wire))
handle-IsAnswered_example =
    handle-IsAnswered sample_messages sample_messages-MessagesLaws sample_zones server www_packet
      www_packet-IsBytes (λ q x e single. classified x (www_question q x e single))
  where
    classified :
        (x : Question sample_names)
        → x ≡ www_a
        → (x.name.absolute ≡ true)
          × (o : ResponseOutcome sample_names sample_rdatasets) × (classify_query sample_names
                sample_rdatasets sample_zones x content origins
              ≡ ok o)
          × All sample_messages-MessagesLaws.IsPrintableSet o.answer
          × All sample_messages-MessagesLaws.IsPrintableSet o.authority
    classified x e =
        subst
          (λ y.
            (y.name.absolute ≡ true)
            × (o : ResponseOutcome sample_names sample_rdatasets) × (classify_query sample_names
                  sample_rdatasets sample_zones y content origins
                ≡ ok o)
            × All sample_messages-MessagesLaws.IsPrintableSet o.answer
            × All sample_messages-MessagesLaws.IsPrintableSet o.authority)
          (sym e) (refl, outcome, www_outcome, outcome-IsPrintable, tt)
