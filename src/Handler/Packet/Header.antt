-- ===== src/Handler/Packet/Header.antt =====
-- The header bits, by table over all values of the flags.
use Prim.Native.Nat.{bit_and, bit_or}
use a_healthy_dns.Base.{
  ℕ, zero, suc, ◌+◌, ◌*◌, ◌/◌, ◌%◌, ◌≤◌, ◌<◌, ◌≡◌, ◌↔◌, refl, Bool, true, ◌&&◌, List, ◌∷◌, arith,
  ◌==◌, ==_iff, &&_iff, bool_eq, length,
}
use a_healthy_dns.Handler.Packet.{
  formerr_flags, qr_flag, aa_flag, header_flags, from_bytes, drop_inbound_response_packet,
}

-- The test holds of every number under the bound.
table : (ℕ → Bool) → ℕ → Bool
table test zero = true
table test (suc bound) = table test bound && test bound

table-entry :
    (test : ℕ → Bool) (bound : ℕ)
    → table test bound ≡ true
    → (flags : ℕ) → flags < bound
    → test flags ≡ true
unfolding table
table-entry test zero checked flags within = absurd (omega arith)
table-entry test (suc bound) checked flags within =
    let earlier = table-entry test bound (ground arith) flags in ground (arith, earlier)

qr_table : table (λ x. bool_eq (bit_and x qr_flag == 0) (x / 0x8000 == 0)) 65536 ≡ true
unfolding table
qr_table = refl

-- The flags of the FORMERR reply, as a sum of its bits: QR, the request's opcode and its RD.
abbrev pub formerr_sum : ℕ → ℕ
formerr_sum f = 0x8000 + f / 0x800 % 16 * 0x800 + f / 0x100 % 2 * 0x100

formerr_table : table (λ x. formerr_flags x == formerr_sum x) 65536 ≡ true
unfolding table formerr_flags
formerr_table = refl

aa_table :
    table
      (λ x. (bit_or x aa_flag / 0x400 % 2 == 1) && (bit_or x aa_flag / 0x8000 == x / 0x8000))
      65536
    ≡ true
unfolding table
aa_table = refl

bool_eq→eq : (a b : Bool) → bool_eq a b ≡ true → a ≡ b
bool_eq→eq a b h = ground arith

qr_set : (x : ℕ) → x < 65536 → (bit_and x qr_flag == 0) ≡ (x / 0x8000 == 0)
qr_set x h = bool_eq→eq _ _ (table-entry _ 65536 qr_table x h)

pub formerr_flags_lem : (x : ℕ) → x < 65536 → formerr_flags x ≡ formerr_sum x
formerr_flags_lem x h = (==_iff _ _).0 (table-entry _ 65536 formerr_table x h)

-- Setting AA sets the bit and leaves QR alone.
pub aa_set :
    (x : ℕ)
    → x < 65536
    → (bit_or x aa_flag / 0x400 % 2 ≡ 1) × (bit_or x aa_flag / 0x8000 ≡ x / 0x8000)
aa_set x h =
    let e = (&&_iff _ _).0 (table-entry _ 65536 aa_table x h) in
    ((==_iff _ _).0 e.0, (==_iff _ _).0 e.1)

flags_of_bytes :
    (a b hi lo : ℕ) (rest : List ℕ) → header_flags (a ∷ b ∷ hi ∷ lo ∷ rest) ≡ hi * 256 + lo
unfolding from_bytes
flags_of_bytes a b hi lo rest = omega arith

-- A packet is taken for a response exactly when it has a whole header and the first bit of the
-- header's third byte is set.
pub drop_inbound_response_packet_iff :
    (a b hi lo : ℕ) (rest : List ℕ)
    → hi < 256
    → lo < 256
    → (drop_inbound_response_packet (a ∷ b ∷ hi ∷ lo ∷ rest) ≡ true)
      ↔ ((12 ≤ length (a ∷ b ∷ hi ∷ lo ∷ rest)) × (128 ≤ hi))
unfolding drop_inbound_response_packet
drop_inbound_response_packet_iff a b hi lo rest h l =
    let e = qr_set ((0 * 256 + hi) * 256 + lo) (omega arith) in
    (λ k. (ground arith, ground arith), λ k. ground arith)
