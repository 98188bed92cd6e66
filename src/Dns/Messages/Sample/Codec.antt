-- ===== src/Dns/Messages/Sample/Codec.antt =====
-- How the concrete `Messages` prints its sections: each part is written before the rest of the
-- numbers, and read back from their front.
use a_healthy_dns.Base.{ℕ, zero, suc, ◌≡◌, refl, Bool, true, false, List, [], ◌∷◌, length}
use a_healthy_dns.Base.Int.{ℤ, pos, negsuc}
use a_healthy_dns.Base.Text.{Text}
use a_healthy_dns.Dns.Names.Sample.{Labels}
use a_healthy_dns.Dns.Rdatasets.{RRset}
use a_healthy_dns.Dns.Messages.{Bytes}

-- `read` gives what `write` has put before the rest, and the rest.
pub record Codec (A : Type 0) : Type 0 where
  pub write : A → Bytes → Bytes
  pub read : Bytes → A × Bytes
  pub reads_back : (a : A) (rest : Bytes) → read (write a rest) ≡ (a, rest)

abbrev read_number : Bytes → ℕ × Bytes
read_number [] = (0, [])
read_number (n ∷ bytes) = (n, bytes)

abbrev number : Codec ℕ
number = record { write = λ n rest. n ∷ rest; read = read_number; reads_back = λ n rest. refl }

abbrev write_bool : Bool → Bytes → Bytes
write_bool true rest = 1 ∷ rest
write_bool false rest = 0 ∷ rest

abbrev read_bool : Bytes → Bool × Bytes
read_bool [] = (false, [])
read_bool (zero ∷ bytes) = (false, bytes)
read_bool (suc n ∷ bytes) = (true, bytes)

abbrev bool_back : (b : Bool) (rest : Bytes) → read_bool (write_bool b rest) ≡ (b, rest)
bool_back true rest = refl
bool_back false rest = refl

abbrev boolean : Codec Bool
boolean = record { write = write_bool; read = read_bool; reads_back = bool_back }

abbrev write_int : ℤ → Bytes → Bytes
write_int (pos n) rest = 0 ∷ n ∷ rest
write_int (negsuc n) rest = 1 ∷ n ∷ rest

abbrev read_int : Bytes → ℤ × Bytes
read_int [] = (pos 0, [])
read_int (s ∷ []) = (pos 0, [])
read_int (zero ∷ (n ∷ bytes)) = (pos n, bytes)
read_int (suc s ∷ (n ∷ bytes)) = (negsuc n, bytes)

abbrev int_back : (i : ℤ) (rest : Bytes) → read_int (write_int i rest) ≡ (i, rest)
int_back (pos n) rest = refl
int_back (negsuc n) rest = refl

abbrev integer : Codec ℤ
integer = record { write = write_int; read = read_int; reads_back = int_back }

module _ {A : Type 0} (c : Codec A) where
  abbrev write_all : List A → Bytes → Bytes
  write_all [] rest = rest
  write_all (a ∷ xs) rest = c.write a (write_all xs rest)

  abbrev read_all : ℕ → Bytes → List A × Bytes
  read_all zero bytes = ([], bytes)
  read_all (suc n) bytes =
      let (a, rest) = c.read bytes in let (xs, rest') = read_all n rest in (a ∷ xs, rest')

  abbrev all_back :
      (xs : List A) (rest : Bytes) → read_all (length xs) (write_all xs rest) ≡ (xs, rest)
  all_back [] rest = refl
  all_back (a ∷ xs) rest = rw (c.reads_back a (write_all xs rest), all_back xs rest) refl

  abbrev read_list : Bytes → List A × Bytes
  read_list [] = ([], [])
  read_list (n ∷ bytes) = read_all n bytes

  -- A list is its length and its members.
  abbrev pub list : Codec (List A)
  list = record {
    write = λ xs rest. length xs ∷ write_all xs rest;
    read = read_list;
    reads_back = all_back;
  }

abbrev text : Codec Text
text = list number

abbrev write_name : Labels → Bytes → Bytes
write_name name rest = (list text).write name.labels (boolean.write name.absolute rest)

abbrev read_name : Bytes → Labels × Bytes
read_name bytes =
    let (labels, rest) = (list text).read bytes in
    let (absolute, rest') = boolean.read rest in
    (record { labels = labels; absolute = absolute }, rest')

abbrev name_back : (name : Labels) (rest : Bytes) → read_name (write_name name rest) ≡ (name, rest)
name_back name rest =
    rw
      (
        (list text).reads_back name.labels (boolean.write name.absolute rest),
        boolean.reads_back name.absolute rest,
      )
      refl

abbrev name_codec : Codec Labels
name_codec = record { write = write_name; read = read_name; reads_back = name_back }

abbrev write_set : RRset Labels Text → Bytes → Bytes
write_set s rest =
    name_codec.write s.name
      (s.rdclass ∷ s.rdtype ∷ integer.write s.ttl ((list text).write s.items rest))

abbrev read_set : Bytes → RRset Labels Text × Bytes
read_set bytes =
    let (name, r1) = name_codec.read bytes in
    let (rdclass, r2) = read_number r1 in
    let (rdtype, r3) = read_number r2 in
    let (ttl, r4) = integer.read r3 in
    let (items, r5) = (list text).read r4 in
    (record { name = name; rdclass = rdclass; rdtype = rdtype; ttl = ttl; items = items }, r5)

abbrev set_back : (s : RRset Labels Text) (rest : Bytes) → read_set (write_set s rest) ≡ (s, rest)
set_back s rest =
    let items = (list text).write s.items rest in
    let numbers = s.rdclass ∷ s.rdtype ∷ integer.write s.ttl items in
    rw
      (
        (list text).reads_back s.name.labels (boolean.write s.name.absolute numbers),
        bool_back s.name.absolute numbers,
        int_back s.ttl items,
        (list text).reads_back s.items rest,
      )
      refl

abbrev pub section : Codec (List (RRset Labels Text))
section = list (record { write = write_set; read = read_set; reads_back = set_back })
