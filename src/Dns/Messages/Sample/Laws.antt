-- ===== src/Dns/Messages/Sample/Laws.antt =====
-- The concrete `Messages` has the laws: what is printed is read back.
use a_healthy_dns.Base.{
  ◌<◌, ◌↔◌, inl, inr, Bool, false, Bool-cases, leb, leb→le, le→leb, ltb→lt, ℕ, ◌+◌, ◌*◌, ◌/◌, ◌%◌,
  ◌≤◌, ◌≡◌, refl, subst, true, Option, none, some, [], arith, ltb, if◌then◌else◌, length, drop,
}
use a_healthy_dns.Base.Text.{Text}
use a_healthy_dns.Dns.Names.Sample.{Labels, sample_names}
use a_healthy_dns.Dns.Rdatasets.{RRset}
use a_healthy_dns.Dns.Messages.Sample.Codec.{section}
use a_healthy_dns.Dns.Messages.{Bytes, Question, short_header, MessagesLaws, IsPrintOf}
use a_healthy_dns.Dns.Messages.Sample.{
  Reply, whole, with_tc, cut, print, read_back, of_question, read_question, sample_messages,
}

read_whole : (m : Reply) → read_back (whole m) ≡ some m
read_whole m =
    let id : m.id / 256 * 256 + m.id % 256 ≡ m.id = omega arith in
    let flags : m.flags / 256 * 256 + m.flags % 256 ≡ m.flags = omega arith in
    let long : ltb (length (whole m)) 12 ≡ false = ground arith in
    rw
      (
        long,
        id,
        flags,
        section.reads_back m.answer (section.write m.authority []),
        section.reads_back m.authority [],
      )
      refl

abbrev empty_reply : Reply → Reply
empty_reply m = record { id = m.id; flags = with_tc m.flags; answer = []; authority = [] }

read_cut : (m : Reply) → read_back (cut m) ≡ some (empty_reply m)
read_cut m =
    let id : m.id / 256 * 256 + m.id % 256 ≡ m.id = omega arith in
    let f = with_tc m.flags in
    let flags : f / 256 * 256 + f % 256 ≡ f = omega arith in rw (id, flags) refl

with_tc_lem :
    (f : ℕ)
    → (with_tc f % 16 ≡ f % 16) × (with_tc f / 0x400 ≡ f / 0x400) × (with_tc f / 0x200 % 2 ≡ 1)
with_tc_lem f = (ground arith, ground arith, ground arith)

print-IsPrintOf :
    (m : Reply) (size : ℕ) → 512 ≤ size → IsPrintOf sample_messages m size (print m size)
print-IsPrintOf m size big = elim (Bool-cases (leb (length (whole m)) size)) [
  | inl fits ↦ rw fits (record {
    small = leb→le _ _ fits;
    read = m;
    reads = read_whole m;
    same_id = refl;
    same_rcode = refl;
    same_flags = refl;
    answer_within = λ name rdclass rdtype d h. h;
    authority_within = λ name rdclass rdtype d h. h;
    whole = λ h. ((λ name rdclass rdtype d h. h), (λ name rdclass rdtype d h. h));
    truncated = λ h. let k = leb→le _ _ fits in absurd (omega (arith, h, k));
  })
  | inr long ↦
      let tc = with_tc_lem m.flags in
      rw long (record {
        small = omega (arith, big);
        read = empty_reply m;
        reads = read_cut m;
        same_id = refl;
        same_rcode = tc.0;
        same_flags = tc.1;
        answer_within = λ name rdclass rdtype d h. elim (h.1) [ ];
        authority_within = λ name rdclass rdtype d h. elim (h.1) [ ];
        whole = λ h. let k = le→leb _ _ h in absurd (clash long k);
        truncated = λ h. tc.2;
      })
]
  where
    clash : {b : Bool} → b ≡ false → b ≡ true → ⊥
    clash h k = cc

of_question-parsed :
    (bytes : Bytes) (o : Option (Question sample_names)) → of_question bytes o ≡ short_header → ⊥
of_question-parsed bytes none e = cc
of_question-parsed bytes (some question) e = cc

sample_short_header :
    (bytes : Bytes) → (sample_messages.from_wire bytes ≡ short_header) ↔ (length bytes < 12)
sample_short_header bytes = elim (Bool-cases (ltb (length bytes) 12)) [
  | inl short ↦ ((λ e. ltb→lt _ _ short), (λ l. rw short refl))
  | inr long ↦ (
    (λ e. absurd (
        of_question-parsed bytes (read_question (drop 12 bytes)) (
          subst
            (λ b.
              (if b then short_header else of_question bytes (read_question (drop 12 bytes)))
              ≡ short_header)
            long e))),
    (λ l. ground arith),
  )
]

pub sample_messages-MessagesLaws : MessagesLaws sample_messages
sample_messages-MessagesLaws = record {
  id_new = λ i. refl;
  answer_new = λ i. refl;
  authority_new = λ i. refl;
  response_id = λ q m e. ground arith;
  response_flags = λ q m e.
      let f : m.flags ≡ 0x8000 + q.opcode % 16 * 0x800 = ground arith in
      (omega arith, omega arith, omega arith);
  response_empty = λ q m e. (ground arith, ground arith);
  flags_with_flags = λ m f. refl;
  with_flags_rest = λ m f. (refl, refl, refl);
  rcode_with_rcode = λ m r h. omega arith;
  flags_with_rcode = λ m r h. omega arith;
  with_rcode_rest = λ m r. (refl, refl, refl);
  answer_extend_answer = λ m rs. refl;
  extend_answer_rest = λ m rs. (refl, refl, refl, refl);
  authority_extend_authority = λ m rs. refl;
  extend_authority_rest = λ m rs. (refl, refl, refl, refl);
  IsPrintable = λ m. Unit;
  IsPrintableSet = λ s. Unit;
  short_header_iff = sample_short_header;
  printable_new = λ i h. tt;
  printable_response = λ bytes q m e n. tt;
  printable_flags = λ m f h p. tt;
  printable_rcode = λ m r h p. tt;
  printable_answer = λ m rs h p. tt;
  printable_authority = λ m rs h p. tt;
  to_wire_prints = λ m size low high p. (print m size, refl, print-IsPrintOf m size low);
}

pub sample_set-IsPrintableSet :
    (s : RRset Labels Text) → sample_messages-MessagesLaws.IsPrintableSet s
unfolding sample_messages-MessagesLaws
sample_set-IsPrintableSet s = tt
