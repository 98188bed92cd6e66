-- ===== src/Dns/Messages/Sample.antt =====
-- A concrete `Messages`: it reads the header and the first question, and prints the
-- header and, where they fit, the two sections.
mod Codec
pub mod Laws
use a_healthy_dns.Base.{
  ◌<◌, ◌↔◌, inl, inr, Bool, false, Bool-cases, leb, leb→le, le→leb, ltb→lt, ℕ, zero, suc, ◌+◌, ◌*◌,
  ◌/◌, ◌%◌, ◌≤◌, ◌≡◌, refl, subst, true, Option, none, some, List, [], ◌∷◌, ◌++◌, arith, ltb, ◌==◌,
  if◌then◌else◌, length, take, drop, ok,
}
use a_healthy_dns.Base.Text.{Text}
use a_healthy_dns.Dns.Names.Sample.{Labels, sample_names}
use a_healthy_dns.Dns.Rdatasets.{RRset}
use a_healthy_dns.Dns.Rdatasets.Sample.{sample_rdatasets}
use a_healthy_dns.Dns.Messages.Sample.Codec.{section}
use a_healthy_dns.Dns.Messages.{
  Bytes, Question, Parsed, parsed, short_header, malformed, Messages, MessagesLaws, IsPrintOf,
}

pub record Reply : Type 0 where
  pub id : ℕ
  pub flags : ℕ
  pub answer : List (RRset Labels Text)
  pub authority : List (RRset Labels Text)

abbrev two_bytes : Bytes → ℕ
two_bytes [] = 0
two_bytes (a ∷ []) = a
two_bytes (a ∷ (b ∷ rest)) = a * 256 + b

-- The labels up to the root, and the bytes behind it.
abbrev read_labels : ℕ → Bytes → Option (List Text × Bytes)
read_labels zero bytes = none
read_labels (suc fuel) [] = none
read_labels (suc fuel) (n ∷ bytes) =
    let more = read_labels fuel (drop n bytes) in
    if n == 0
    then some ([], bytes)
    else elim more [ none ↦ none | some (labels, rest) ↦ some (take n bytes ∷ labels, rest) ]

abbrev pub read_question : Bytes → Option (Question sample_names)
read_question bytes = elim (read_labels (length bytes) bytes) [
  | none ↦ none
  | some (labels, rest) ↦
      if ltb (length rest) 4
      then none
      else some (record {
        name = record { labels = labels; absolute = true };
        rdclass = two_bytes (drop 2 rest);
        rdtype = two_bytes rest;
      })
]

abbrev pub of_question : Bytes → Option (Question sample_names) → Parsed sample_names
of_question bytes none = malformed
of_question bytes (some question) = parsed (record {
  id = two_bytes bytes;
  opcode = two_bytes (drop 2 bytes) / 0x800 % 16;
  question = question ∷ [];
})

abbrev header_of : ℕ → ℕ → ℕ → ℕ → Bytes → Bytes
header_of id flags answers authorities rest =
    id / 256
    ∷ id % 256
    ∷ flags / 256
    ∷ flags % 256
    ∷ 0
    ∷ 0
    ∷ 0
    ∷ answers
    ∷ 0
    ∷ authorities
    ∷ 0
    ∷ 0
    ∷ rest

abbrev pub whole : Reply → Bytes
whole m =
    header_of m.id m.flags (length m.answer) (length m.authority)
      (section.write m.answer (section.write m.authority []))

-- The flags with TC.
abbrev pub with_tc : ℕ → ℕ
with_tc flags = if flags / 0x200 % 2 == 1 then flags else flags + 0x200

abbrev pub cut : Reply → Bytes
cut m = header_of m.id (with_tc m.flags) 0 0 (0 ∷ 0 ∷ [])

abbrev pub print : Reply → ℕ → Bytes
print m size = if leb (length (whole m)) size then whole m else cut m

abbrev read_sections : ℕ → ℕ → Bytes → Reply
read_sections id flags bytes =
    let (answer, rest) = section.read bytes in
    let (authority, rest') = section.read rest in
    record { id = id; flags = flags; answer = answer; authority = authority }

abbrev pub read_back : Bytes → Option Reply
read_back bytes =
    if ltb (length bytes) 12
    then none
    else some (read_sections (two_bytes bytes) (two_bytes (drop 2 bytes)) (drop 12 bytes))

abbrev pub sample_messages : Messages sample_names sample_rdatasets
sample_messages = record {
  Message = Reply;
  from_wire = λ bytes.
      if ltb (length bytes) 12
      then short_header
      else of_question bytes (read_question (drop 12 bytes));
  make_response = λ q.
      some
        (record { id = q.id; flags = 0x8000 + q.opcode % 16 * 0x800; answer = []; authority = [] });
  new_message = λ i. record { id = i; flags = 0; answer = []; authority = [] };
  get_id = λ m. m.id;
  get_flags = λ m. m.flags;
  with_flags = λ m f. record m { flags = f };
  get_rcode = λ m. m.flags % 16;
  with_rcode = λ m r. record m { flags = m.flags / 16 * 16 + r };
  get_answer = λ m. m.answer;
  extend_answer = λ m rs. record m { answer = m.answer ++ rs };
  get_authority = λ m. m.authority;
  extend_authority = λ m rs. record m { authority = m.authority ++ rs };
  to_wire = λ m size truncate. ok (print m size);
  read_reply = read_back;
  wire_size = λ m. length (whole m);
}
