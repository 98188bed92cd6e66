-- ===== src/Handler/Packet/Answered.antt =====
-- Every packet is answered by one small datagram, or not at all: which packets are which.
use a_healthy_dns.Base.{
  ◌≢◌, ◌==◌, ℕ, ◌≤◌, ◌<◌, ◌≡◌, ◌⊎◌, ◌↔◌, refl, sym, ◌∙◌, inl, inr, true, false, none, some, List,
  [], ◌∷◌, arith, Bool-cases, Option-cases, length, All, Result, ok,
}
use a_healthy_dns.Dns.Names.{Names}
use a_healthy_dns.Dns.Rdatasets.{Rdatasets, in_class}
use a_healthy_dns.Dns.Zones.{Zones}
use a_healthy_dns.Dns.Messages.{
  Bytes, Question, Query, Parsed, parsed, short_header, malformed, Messages, MessagesLaws,
  IsPrintOf,
}
use a_healthy_dns.Handler.Outcome.{ResponseOutcome, classify_query, formerr, notimp, refused}
use a_healthy_dns.Handler.Packet.{Server, drop_inbound_response_packet, handle}
use a_healthy_dns.Handler.Packet.Header.{drop_inbound_response_packet_iff}
use a_healthy_dns.Handler.Packet.Refusals.{
  Rejects, bad_opcode, bad_count, bad_class, handle_malformed, handle_rejected,
}
use a_healthy_dns.Handler.Packet.Replies.{sent, sent_dropped, sent_short, sent_unanswerable}
use a_healthy_dns.Handler.Packet.Served.{handle_served}

-- A packet with a whole header whose first flag is set.
abbrev pub IsResponse : Bytes → Type 0
IsResponse (a ∷ (b ∷ (hi ∷ rest))) = (12 ≤ length (a ∷ b ∷ hi ∷ rest)) × (128 ≤ hi)
IsResponse _ = ⊥

dropped_iff :
    (d : Bytes) → All (λ b. b < 256) d → (drop_inbound_response_packet d ≡ true) ↔ IsResponse d
unfolding drop_inbound_response_packet
dropped_iff [] h = ((λ e. ground arith), λ k. absurd k)
dropped_iff (a ∷ []) h = ((λ e. ground arith), λ k. absurd k)
dropped_iff (a ∷ (b ∷ [])) h = ((λ e. ground arith), λ k. absurd k)
dropped_iff (a ∷ (b ∷ (hi ∷ []))) h = ((λ e. ground arith), λ k. absurd (omega (arith, k.0)))
dropped_iff (a ∷ (b ∷ (hi ∷ (lo ∷ rest)))) h =
    drop_inbound_response_packet_iff a b hi lo rest h.1.1.0 h.1.1.1.0

module _ {names : Names} {rdatasets : Rdatasets} (messages : Messages names rdatasets)
    (laws : MessagesLaws messages) (zones : Zones names rdatasets)
    (server : Server names rdatasets messages zones) (datagram : Bytes) where
  open messages use {Message, from_wire, make_response}

  -- Why a packet is not answered: it is a response, it is shorter than a header, or it is a query to
  -- which the library builds no response.
  abbrev pub IsUnanswered : Type 0
  IsUnanswered =
      IsResponse datagram
      ⊎ (length datagram < 12)
      ⊎ ((q : Query names) × (from_wire datagram ≡ parsed q) × (make_response q ≡ none))

  abbrev pub handled : Result (List Bytes)
  handled = handle names rdatasets messages zones server datagram

  -- The packet is answered by one datagram that prints a message in 512 bytes.
  abbrev pub IsAnswered : Type 0
  IsAnswered =
      (m : Message) × (wire : Bytes) × (handled ≡ ok (wire ∷ [])) × IsPrintOf messages m 512 wire

  only_cases :
      (q : Query names) (xs : List (Question names))
      → q.question ≡ xs
      → q.opcode ≡ 0
      → ((x : Question names) × (xs ≡ x ∷ []) × (x.rdclass ≡ in_class))
        ⊎ ((code : ℕ) × Rejects messages laws zones server q code)
  only_cases q [] e o = inr (formerr, bad_count o (λ h. ground arith))
  only_cases q (x ∷ (y ∷ xs)) e o = inr (formerr, bad_count o (λ h. ground arith))
  only_cases q (x ∷ []) e o = elim (Bool-cases (x.rdclass == in_class)) [
    | inl c ↦ inl (x, refl, ground arith)
    | inr c ↦ inr (refused, bad_class x o e (λ h. ground arith))
  ]

  -- A query is rejected, or has one question, of class IN, and the opcode QUERY.
  query_cases :
      (q : Query names)
      → ((x : Question names) × (q.opcode ≡ 0) × (q.question ≡ x ∷ []) × (x.rdclass ≡ in_class))
        ⊎ ((code : ℕ) × Rejects messages laws zones server q code)
  query_cases q = elim (Bool-cases (q.opcode == 0)) [
    | inr e ↦ inr (notimp, bad_opcode (λ h. ground arith))
    | inl e ↦
        let o : q.opcode ≡ 0 = ground arith in
        elim (only_cases q q.question refl o) [
          | inl (x, single, rdclass) ↦ inl (x, o, single, rdclass)
          | inr r ↦ inr r
        ]
  ]

  -- The question of the packet, if it has just one, is for an absolute name and is classified with
  -- an outcome whose sets can be printed.
  abbrev IsClassified : Type 0
  IsClassified =
      (q : Query names) (x : Question names)
      → from_wire datagram ≡ parsed q
      → q.question ≡ x ∷ []
      → (names.is_absolute x.name ≡ true)
        × (o : ResponseOutcome names rdatasets) × (classify_query names rdatasets zones x
              server.zone server.zone_origins
            ≡ ok o)
        × All laws.IsPrintableSet o.answer
        × All laws.IsPrintableSet o.authority

  parsed-IsAnswered :
      IsClassified
      → drop_inbound_response_packet datagram ≡ false
      → (q : Query names) (response : Message) → from_wire datagram ≡ parsed q
      → make_response q ≡ some response
      → IsAnswered
  parsed-IsAnswered classified k q response e n = elim (query_cases q) [
    | inl (x, opcode, single, rdclass) ↦
        let (absolute, o, c, a, b) = classified q x e single in
        let (m, wire, sent, print, _) =
          handle_served messages laws zones server datagram q x response o k e n
            (record { opcode = opcode; single = single; rdclass = rdclass; absolute = absolute }) c
            a b in
        (m, wire, sent, print)
    | inr (code, r) ↦
        let (m, wire, sent, print, _, _) =
          handle_rejected messages laws zones server datagram q response code k e n r in
        (m, wire, sent, print)
  ]

  malformed_answer :
      All (λ b. b < 256) datagram
      → drop_inbound_response_packet datagram ≡ false
      → from_wire datagram ≡ malformed
      → IsAnswered
  malformed_answer h k e =
      let (m, wire, sent, print, _, _) =
        handle_malformed messages laws zones server datagram h k e in
      (m, wire, sent, print)

  not_unanswered :
      drop_inbound_response_packet datagram ≡ false
      → All (λ b. b < 256) datagram
      → from_wire datagram ≢ short_header
      → ((q : Query names) → from_wire datagram ≡ parsed q → make_response q ≢ none)
      → ¬ IsUnanswered
  not_unanswered k h long built (inl r) = let d = (dropped_iff datagram h).1 r in cc
  not_unanswered k h long built (inr (inl l)) = long ((laws.short_header_iff datagram).1 l)
  not_unanswered k h long built (inr (inr (q, e, n))) = built q e n

  abbrev IsSettled : Type 0
  IsSettled = (IsUnanswered × (handled ≡ ok [])) ⊎ ((¬ IsUnanswered) × IsAnswered)

  settled :
      All (λ b. b < 256) datagram
      → IsClassified
      → drop_inbound_response_packet datagram ≡ false
      → (p : Parsed names) → from_wire datagram ≡ p
      → IsSettled
  settled h c k short_header e = inl (
    inr (inl ((laws.short_header_iff datagram).0 e)),
    sent_short messages laws zones server datagram k e,
  )
  settled h c k malformed e = inr (
    not_unanswered k h (λ f. let b = sym e ∙ f in cc) (λ q f n. let b = sym e ∙ f in cc),
    malformed_answer h k e,
  )
  settled h c k (parsed q) e = elim (Option-cases (make_response q)) [
    | inl n ↦
        inl (inr (inr (q, e, n)), sent_unanswerable messages laws zones server datagram k q e n)
    | inr (m, n) ↦ inr (
      not_unanswered k h (λ f. let b = sym e ∙ f in cc) (λ q' f n'. other m n q' (sym e ∙ f) n'),
      parsed-IsAnswered c k q m e n,
    )
  ]
    where
      other :
          (m : Message)
          → make_response q ≡ some m
          → (q' : Query names) → parsed q ≡ parsed q'
          → make_response q' ≢ none
      other m n q' f n' = let same : q ≡ q' = ground arith in cc

  -- A packet of bytes is not answered exactly when it is a response (it has a whole header of 12 bytes
  -- and the first bit of its third byte is set), is shorter than a header, or is a query to which the
  -- library builds no response. Every other packet is answered by exactly one datagram, of at most
  -- 512 bytes, that prints a message: read back, it has the message's number, code, QR and AA, and
  -- no other records; it has all of them if the message fits into 512 bytes, and TC if it does not.
  -- This holds if the packet's one question is for an absolute name and is classified with an outcome
  -- whose sets can be printed. Nothing is raised.
  pub handle-IsAnswered :
      All (λ b. b < 256) datagram
      → ((q : Query names) (x : Question names)
          → from_wire datagram ≡ parsed q
          → q.question ≡ x ∷ []
          → (names.is_absolute x.name ≡ true)
            × (o : ResponseOutcome names rdatasets) × (classify_query names rdatasets zones x
                  server.zone server.zone_origins
                ≡ ok o)
            × All laws.IsPrintableSet o.answer
            × All laws.IsPrintableSet o.authority)
      → (IsUnanswered × (handle names rdatasets messages zones server datagram ≡ ok []))
        ⊎ ((¬ IsUnanswered)
            × ((m : Message) × (wire : Bytes) × (handle names rdatasets messages zones server
                    datagram
                  ≡ ok (wire ∷ []))
                × IsPrintOf messages m 512 wire))
  handle-IsAnswered h c = elim (Bool-cases (drop_inbound_response_packet datagram)) [
    | inl d ↦
        inl (inl ((dropped_iff datagram h).0 d), sent_dropped messages laws zones server datagram d)
    | inr k ↦ settled h c k (from_wire datagram) refl
  ]
