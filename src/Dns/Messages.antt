-- ===== src/Dns/Messages.antt =====
-- `dns.message`: parsing queries, and building and printing responses.
pub mod Sample
use mathlib.Core.List.{Memᴰ}
use a_healthy_dns.Base.{
  ◌↔◌, All, ℕ, ◌/◌, ◌%◌, ◌≤◌, ◌<◌, ◌≡◌, Bool, true, List, [], ◌++◌, Option, some, Result, ok,
  length,
}
use a_healthy_dns.Dns.Names.{Names}
use a_healthy_dns.Dns.Rdatasets.{Rdatasets, RRset}

abbrev pub Bytes : Type 0
Bytes = List ℕ

-- What the source reads of a question and of a parsed query.
pub record Question (names : Names) : Type 0 where
  pub name : names.Name
  pub rdclass : ℕ
  pub rdtype : ℕ

pub record Query (names : Names) : Type 0 where
  pub id : ℕ
  pub opcode : ℕ
  pub question : List (Question names)

-- `from_wire` returns, or raises `ShortHeader` or another `DNSException`.
pub data Parsed (names : Names) : Type 0 where
  parsed : Query names → Parsed names
  short_header malformed : Parsed names

-- `make_response` gives `none` where it raises `FormError`. The `with_` and `extend_` operations
-- are the assignments and calls on a response; `to_wire` is called with its two arguments. A client
-- reads a reply by `read_reply`, which is `from_wire` there; `wire_size` is the length of a message
-- that is printed whole.
pub record Messages (names : Names) (rdatasets : Rdatasets) : Type 1 where
  pub Message : Type 0
  pub from_wire : Bytes → Parsed names
  pub make_response : Query names → Option Message
  pub new_message : ℕ → Message
  pub get_id : Message → ℕ
  pub get_flags : Message → ℕ
  pub with_flags : Message → ℕ → Message
  pub get_rcode : Message → ℕ
  pub with_rcode : Message → ℕ → Message
  pub get_answer : Message → List (RRset names.Name rdatasets.Rdata)
  pub extend_answer : Message → List (RRset names.Name rdatasets.Rdata) → Message
  pub get_authority : Message → List (RRset names.Name rdatasets.Rdata)
  pub extend_authority : Message → List (RRset names.Name rdatasets.Rdata) → Message
  pub to_wire : Message → ℕ → Bool → Result Bytes
  pub read_reply : Bytes → Option Message
  pub wire_size : Message → ℕ

-- A section holds a record with the owner, class, type and value.
abbrev pub HoldsRecord :
    {Name Rdata : Type 0} → List (RRset Name Rdata) → Name → ℕ → ℕ → Rdata → Type 0
HoldsRecord {Name} {Rdata} rs name rdclass rdtype d =
    (s : RRset Name Rdata) × Memᴰ s rs
    × (s.name ≡ name)
    × (s.rdclass ≡ rdclass)
    × (s.rdtype ≡ rdtype)
    × Memᴰ d s.items

-- Each record of the first section is in the second.
abbrev pub IsWithin :
    {Name Rdata : Type 0} → List (RRset Name Rdata) → List (RRset Name Rdata) → Type 0
IsWithin {Name} {Rdata} rs rs' =
    (name : Name) (rdclass rdtype : ℕ) (d : Rdata)
    → HoldsRecord rs name rdclass rdtype d
    → HoldsRecord rs' name rdclass rdtype d

module _ {names : Names} {rdatasets : Rdatasets} (messages : Messages names rdatasets) where
  open messages use {
    Message, make_response, new_message, get_id, get_flags, with_flags, get_rcode, with_rcode,
    get_answer, extend_answer, get_authority, extend_authority, to_wire, from_wire, read_reply,
    wire_size,
  }

  -- The bytes print a message in `size` bytes: they are read back with its number, its code and its
  -- flags down to AA, and with no other records; with all its records if the message fits, and with TC
  -- (the flag 0x200) if it does not.
  pub record IsPrintOf (m : Message) (size : ℕ) (bytes : Bytes) : Type 0 where
    pub small : length bytes ≤ size
    pub read : Message
    pub reads : read_reply bytes ≡ some read
    pub same_id : get_id read ≡ get_id m
    pub same_rcode : get_rcode read ≡ get_rcode m
    pub same_flags : get_flags read / 0x400 ≡ get_flags m / 0x400
    pub answer_within : IsWithin (get_answer read) (get_answer m)
    pub authority_within : IsWithin (get_authority read) (get_authority m)
    pub whole :
        wire_size m ≤ size
        → IsWithin (get_answer m) (get_answer read)
          × IsWithin (get_authority m) (get_authority read)
    pub truncated : size < wire_size m → get_flags read / 0x200 % 2 ≡ 1

  -- A new message is empty; a response repeats the query's number, is marked
  -- as a response and not as authoritative, and is empty; setting one part leaves the others alone,
  -- but the response code has the low four bits of the flags. A packet shorter than the header of 12
  -- bytes is refused as such, and no other. A response to a parsed query can be printed, and so can a
  -- new message, with any flags, code and further sets that can be printed (those with absolute names
  -- and valid records). Between 512 and 65535 bytes, printing with truncation returns and keeps to
  -- the size.
  pub record MessagesLaws : Type 1 where
    pub IsPrintable : Message → Type 0
    pub IsPrintableSet : RRset names.Name rdatasets.Rdata → Type 0
    pub short_header_iff : (bytes : Bytes) → (from_wire bytes ≡ short_header) ↔ (length bytes < 12)
    pub printable_new : (i : ℕ) → i < 65536 → IsPrintable (new_message i)
    pub printable_response :
        (bytes : Bytes) (q : Query names) (m : Message)
        → from_wire bytes ≡ parsed q
        → make_response q ≡ some m
        → IsPrintable m
    pub printable_flags :
        (m : Message) (f : ℕ) → f < 65536 → IsPrintable m → IsPrintable (with_flags m f)
    pub printable_rcode :
        (m : Message) (r : ℕ) → r < 16 → IsPrintable m → IsPrintable (with_rcode m r)
    pub printable_answer :
        (m : Message) (rs : List (RRset names.Name rdatasets.Rdata))
        → All IsPrintableSet rs
        → IsPrintable m
        → IsPrintable (extend_answer m rs)
    pub printable_authority :
        (m : Message) (rs : List (RRset names.Name rdatasets.Rdata))
        → All IsPrintableSet rs
        → IsPrintable m
        → IsPrintable (extend_authority m rs)
    pub to_wire_prints :
        (m : Message) (size : ℕ)
        → 512 ≤ size
        → size ≤ 65535
        → IsPrintable m
        → (bytes : Bytes) × (to_wire m size true ≡ ok bytes) × IsPrintOf m size bytes
    pub id_new : (i : ℕ) → get_id (new_message i) ≡ i
    pub answer_new : (i : ℕ) → get_answer (new_message i) ≡ []
    pub authority_new : (i : ℕ) → get_authority (new_message i) ≡ []
    pub response_id : (q : Query names) (m : Message) → make_response q ≡ some m → get_id m ≡ q.id
    pub response_flags :
        (q : Query names) (m : Message)
        → make_response q ≡ some m
        → (get_flags m < 65536) × (get_flags m / 0x8000 ≡ 1) × (get_flags m / 0x400 % 2 ≡ 0)
    pub response_empty :
        (q : Query names) (m : Message)
        → make_response q ≡ some m
        → (get_answer m ≡ []) × (get_authority m ≡ [])
    pub flags_with_flags : (m : Message) (f : ℕ) → get_flags (with_flags m f) ≡ f
    pub with_flags_rest :
        (m : Message) (f : ℕ)
        → (get_id (with_flags m f) ≡ get_id m)
          × (get_answer (with_flags m f) ≡ get_answer m)
          × (get_authority (with_flags m f) ≡ get_authority m)
    pub rcode_with_rcode : (m : Message) (r : ℕ) → r < 16 → get_rcode (with_rcode m r) ≡ r
    pub flags_with_rcode :
        (m : Message) (r : ℕ) → r < 16 → get_flags (with_rcode m r) / 16 ≡ get_flags m / 16
    pub with_rcode_rest :
        (m : Message) (r : ℕ)
        → (get_id (with_rcode m r) ≡ get_id m)
          × (get_answer (with_rcode m r) ≡ get_answer m)
          × (get_authority (with_rcode m r) ≡ get_authority m)
    pub answer_extend_answer :
        (m : Message) (rs : List (RRset names.Name rdatasets.Rdata))
        → get_answer (extend_answer m rs) ≡ get_answer m ++ rs
    pub extend_answer_rest :
        (m : Message) (rs : List (RRset names.Name rdatasets.Rdata))
        → (get_id (extend_answer m rs) ≡ get_id m)
          × (get_flags (extend_answer m rs) ≡ get_flags m)
          × (get_rcode (extend_answer m rs) ≡ get_rcode m)
          × (get_authority (extend_answer m rs) ≡ get_authority m)
    pub authority_extend_authority :
        (m : Message) (rs : List (RRset names.Name rdatasets.Rdata))
        → get_authority (extend_authority m rs) ≡ get_authority m ++ rs
    pub extend_authority_rest :
        (m : Message) (rs : List (RRset names.Name rdatasets.Rdata))
        → (get_id (extend_authority m rs) ≡ get_id m)
          × (get_flags (extend_authority m rs) ≡ get_flags m)
          × (get_rcode (extend_authority m rs) ≡ get_rcode m)
          × (get_answer (extend_authority m rs) ≡ get_answer m)
