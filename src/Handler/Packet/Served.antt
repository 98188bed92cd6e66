-- ===== src/Handler/Packet/Served.antt =====
-- Questions that are served: the reply carries the outcome of the classification.
use Prim.Native.Nat.{bit_or}
use a_healthy_dns.Base.{
  All, ℕ, ◌/◌, ◌%◌, ◌<◌, ◌≡◌, ap, ◌∙◌, Bool, true, false, some, [], ◌∷◌, ◌++◌, arith, if◌then◌else◌,
  ok,
}
use a_healthy_dns.Dns.Names.{Names}
use a_healthy_dns.Dns.Rdatasets.{Rdatasets, in_class}
use a_healthy_dns.Dns.Zones.{Zones}
use a_healthy_dns.Dns.Messages.{Bytes, Question, Query, parsed, Messages, MessagesLaws, IsPrintOf}
use a_healthy_dns.Handler.Outcome.{ResponseOutcome, classify_query}
use a_healthy_dns.Handler.Outcome.Shape.{rcode_lt}
use a_healthy_dns.Handler.Packet.{
  Server, drop_inbound_response_packet, only_question, validated_question, accepted, send, respond,
  handle, apply_response_outcome, aa_flag,
}
use a_healthy_dns.Handler.Packet.Header.{aa_set}
use a_healthy_dns.Handler.Packet.Replies.{sent_parsed, send-printed, printed-IsPrintOf}

module _ {names : Names} {rdatasets : Rdatasets} (messages : Messages names rdatasets)
    (laws : MessagesLaws messages) (zones : Zones names rdatasets)
    (server : Server names rdatasets messages zones) where
  open messages use {
    Message, from_wire, make_response, get_id, get_flags, get_rcode, get_answer, get_authority,
    to_wire,
  }

  -- A query with opcode QUERY and one question of class IN, for an absolute name.
  pub record IsQuestion (q : Query names) (x : Question names) : Type 0 where
    pub opcode : q.opcode ≡ 0
    pub single : q.question ≡ x ∷ []
    pub rdclass : x.rdclass ≡ in_class
    pub absolute : names.is_absolute x.name ≡ true

  question_accepted :
      (q : Query names) (x : Question names)
      → IsQuestion q x
      → validated_question names rdatasets messages q ≡ accepted x
  unfolding validated_question only_question
  question_accepted q x h = ground arith

  abbrev pub aa_bit : Bool → ℕ
  aa_bit true = 1
  aa_bit false = 0

  apply : Message → ResponseOutcome names rdatasets → Message
  apply = apply_response_outcome names rdatasets messages

  -- What a reply that carries an outcome is.
  pub record Carries (id : ℕ) (o : ResponseOutcome names rdatasets) (m : Message) : Type 0 where
    pub same_id : get_id m ≡ id
    pub code : get_rcode m ≡ o.rcode
    pub answer : get_answer m ≡ o.answer
    pub authority : get_authority m ≡ o.authority
    pub is_response : get_flags m / 0x8000 ≡ 1
    pub aa : get_flags m / 0x400 % 2 ≡ aa_bit o.is_authoritative

  module _ (q : Query names) (response : Message) (made : make_response q ≡ some response) where
    marked : Bool → Message
    marked b =
        if b then messages.with_flags response (bit_or (get_flags response) aa_flag) else response

    marked-flags :
        (b : Bool)
        → (get_flags (marked b) / 0x8000 ≡ 1) × (get_flags (marked b) / 0x400 % 2 ≡ aa_bit b)
    unfolding marked
    marked-flags true =
        let f = laws.response_flags q response made in
        let a = aa_set (get_flags response) f.0 in
        let e = laws.flags_with_flags response (bit_or (get_flags response) aa_flag) in
        (rw e (a.1 ∙ f.1), rw e a.0)
    marked-flags false = let f = laws.response_flags q response made in (f.1, f.2)

    marked-rest :
        (b : Bool)
        → (get_id (marked b) ≡ q.id)
          × (get_answer (marked b) ≡ [])
          × (get_authority (marked b) ≡ [])
    unfolding marked
    marked-rest true =
        let w = laws.with_flags_rest response (bit_or (get_flags response) aa_flag) in
        let e = laws.response_empty q response made in
        (w.0 ∙ laws.response_id q response made, w.1 ∙ e.0, w.2 ∙ e.1)
    marked-rest false =
        let e = laws.response_empty q response made in (laws.response_id q response made, e.0, e.1)

    apply-Carries :
        (o : ResponseOutcome names rdatasets) → o.rcode < 16 → Carries q.id o (apply response o)
    unfolding apply apply_response_outcome marked
    apply-Carries o small =
        let m = marked o.is_authoritative in
        let f = marked-flags o.is_authoritative in
        let z = marked-rest o.is_authoritative in
        let coded = messages.with_rcode m o.rcode in
        let c = laws.with_rcode_rest m o.rcode in
        let mid = messages.extend_authority coded o.authority in
        let a = laws.extend_authority_rest coded o.authority in
        let b = laws.extend_answer_rest mid o.answer in
        let flags = laws.flags_with_rcode m o.rcode small in
        let same = ap (λ x. x / 16) (b.1 ∙ a.1) ∙ flags in
        record {
          same_id = b.0 ∙ a.0 ∙ c.0 ∙ z.0;
          code = b.2 ∙ a.2 ∙ laws.rcode_with_rcode m o.rcode small;
          answer =
              laws.answer_extend_answer mid o.answer ∙ ap (λ x. x ++ o.answer) (a.3 ∙ c.1 ∙ z.1);
          authority =
              b.3
              ∙ laws.authority_extend_authority coded o.authority
              ∙ ap (λ x. x ++ o.authority) (c.2 ∙ z.2);
          is_response = omega (arith, same, f.0);
          aa = omega (arith, same, f.1);
        }

  updated :
      (x : Question names) (response : Message) (o : ResponseOutcome names rdatasets)
      → classify_query names rdatasets zones x server.zone server.zone_origins ≡ ok o
      → respond names rdatasets messages zones server response (accepted x) ≡ ok (apply response o)
  unfolding respond apply
  updated x response o c = ground arith

  apply-IsPrintable :
      (q : Query names) (response : Message) (made : make_response q ≡ some response)
      (o : ResponseOutcome names rdatasets)
      → o.rcode < 16
      → laws.IsPrintable response
      → All laws.IsPrintableSet o.answer
      → All laws.IsPrintableSet o.authority
      → laws.IsPrintable (apply response o)
  unfolding apply apply_response_outcome marked
  apply-IsPrintable q response made o small p a b =
      let m = marked q response made o.is_authoritative in
      laws.printable_answer _ o.answer a (
        laws.printable_authority _ o.authority b
          (laws.printable_rcode m o.rcode small (with_aa o.is_authoritative)))
    where
      with_aa : (b : Bool) → laws.IsPrintable (marked q response made b)
      with_aa true =
          let f = laws.response_flags q response made in
          let a = aa_set (get_flags response) f.0 in
          laws.printable_flags response _ (omega (arith, a.1, f.1)) p
      with_aa false = p

  -- A parsed query, with opcode QUERY and one question, of class IN and for an absolute name, to
  -- which the library builds a response and which is classified with an outcome whose sets can be
  -- printed, is answered by one datagram of at most 512 bytes. It prints a message that carries the
  -- outcome: its code, its answer and authority sections, and AA exactly when it is authoritative;
  -- the message has the query's number and is marked as a response. Read back, the datagram has the
  -- message's number, code, QR and AA, and no other records; it has all of them if the message fits
  -- into 512 bytes, and TC if it does not.
  pub handle_served :
      (datagram : Bytes) (q : Query names) (x : Question names) (response : Message)
      (o : ResponseOutcome names rdatasets)
      → drop_inbound_response_packet datagram ≡ false
      → from_wire datagram ≡ parsed q
      → make_response q ≡ some response
      → IsQuestion q x
      → classify_query names rdatasets zones x server.zone server.zone_origins ≡ ok o
      → All laws.IsPrintableSet o.answer
      → All laws.IsPrintableSet o.authority
      → (m : Message) × (wire : Bytes) × (handle names rdatasets messages zones server datagram
          ≡ ok (wire ∷ []))
        × IsPrintOf messages m 512 wire
        × Carries q.id o m
  unfolding respond
  handle_served d q x response o k e n i c pa pb =
      let small = rcode_lt names rdatasets zones x server.zone server.zone_origins o i.absolute c in
      let m = apply response o in
      let p =
        apply-IsPrintable q response n o small (laws.printable_response d q response e n) pa pb in
      let (wire, sent, print) = printed-IsPrintOf messages laws zones server m p in
      (
        m,
        wire,
        sent_parsed messages laws zones server d k q response e n
            ∙ ap
                (λ v.
                  send names rdatasets messages zones
                    (respond names rdatasets messages zones server response v))
                (question_accepted q x i)
            ∙ ap (λ r. send names rdatasets messages zones r) (updated x response o c)
            ∙ send-printed messages laws zones server m
            ∙ sent,
        print,
        apply-Carries q response n o small,
      )
