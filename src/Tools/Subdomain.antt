-- ===== src/Tools/Subdomain.antt =====
-- tools/is_valid_subdomain.py.
pub mod Hostname
mod Tests
use a_healthy_dns.Base.{
  ℕ, ◌+◌, Bool, true, false, ◌&&◌, ◌||◌, not, List, [], ◌∷◌, ◌++◌, String, leb, ltb, ◌==◌,
  if◌then◌else◌, length, all, any,
}
use a_healthy_dns.Base.Text.{Text, split}
use a_healthy_dns.Json.{Value, str}
use a_healthy_dns.Unicode.{is_ascii_digit}

abbrev pub max_dns_label_length : ℕ
max_dns_label_length = 63

abbrev pub max_dns_name_length : ℕ
max_dns_name_length = 253

abbrev pub is_ascii_letter : ℕ → Bool
is_ascii_letter c = (leb b'a' c && leb c b'z') || (leb b'A' c && leb c b'Z')

-- `char in _ASCII_LABEL_CHARS`
abbrev pub is_label_char : ℕ → Bool
is_label_char c = is_ascii_letter c || (is_ascii_digit c || (c == b'-'))

pub is_ascii_ldh_label : Text → Bool
is_ascii_ldh_label label = all is_label_char label

-- `label and _is_ascii_ldh_label(label)`
pub is_filled_ldh : Text → Bool
unfolding is_ascii_ldh_label
is_filled_ldh [] = false
is_filled_ldh (c ∷ label) = is_ascii_ldh_label (c ∷ label)

pub is_short : Text → Bool
is_short label = leb (length label) max_dns_label_length

-- `str.isalnum` at a character that the earlier test has found to be ASCII
abbrev pub isalnum : ℕ → Bool
isalnum c = is_ascii_letter c || is_ascii_digit c

abbrev pub last : ℕ → Text → ℕ
last c [] = c
last c (d ∷ s) = last d s

-- `label[0].isalnum() and label[-1].isalnum()`; the first test leaves no empty label
pub has_alnum_ends : Text → Bool
has_alnum_ends [] = false
has_alnum_ends (c ∷ s) = isalnum c && isalnum (last c s)

pub absolute_length : Text → Text → ℕ
absolute_length name [] = length name
absolute_length name (c ∷ origin_name) = length (name ++ (b'.' ∷ (c ∷ origin_name)))

unfoldable pub valid_labels : List Text → Bool × String
unfolding is_filled_ldh is_short has_alnum_ends
valid_labels labels =
    if not (all is_filled_ldh labels)
    then (false, "Labels must contain only ASCII letters, digits, or hyphens")
    else if not (all is_short labels)
    then (false, "Labels must be 63 characters or fewer")
    else if not (all has_alnum_ends labels)
    then (false, "Labels must start and end with an ASCII letter or digit")
    else (true, "")

pub valid_text : Text → Text → Bool × String
unfolding absolute_length valid_labels
valid_text [] origin_name = (false, "It cannot be empty")
valid_text (c ∷ s) origin_name =
    if ltb max_dns_name_length (length (c ∷ s))
    then (false, "It must be 253 characters or fewer")
    else if ltb max_dns_name_length (absolute_length (c ∷ s) origin_name)
    then (false, "It must be 253 characters or fewer with the origin")
    else valid_labels (split b'.' (c ∷ s))

-- The default of `origin_name` is the empty text.
unfoldable pub is_valid_subdomain : Value → Text → Bool × String
unfolding valid_text
is_valid_subdomain (str name) origin_name = valid_text name origin_name
is_valid_subdomain _ origin_name = (false, "It must be a string")

-- `"." in name`, for a name that is a text
abbrev pub has_dot : Value → Bool
has_dot (str name) = any (λ c. c == b'.') name
has_dot _ = false

abbrev fully_qualified : Bool × String → Bool → Bool × String
fully_qualified (true, error) true = (true, "")
fully_qualified (true, error) false = (false, "It must be a fully-qualified hostname")
fully_qualified (false, error) dotted = (false, error)

unfoldable pub is_valid_fqdn : Value → Bool × String
is_valid_fqdn name = fully_qualified (is_valid_subdomain name []) (has_dot name)
