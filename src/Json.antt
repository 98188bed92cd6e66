-- ===== src/Json.antt =====
-- Values of type `Any`: what `json.loads` returns and `argparse` stores.
use a_healthy_dns.Base.{Bool, true, false, List, [], ◌∷◌, Option, none, some, if◌then◌else◌}
use a_healthy_dns.Base.Int.{ℤ, pos}
use a_healthy_dns.Base.Text.{Text, text_eq}

-- `real` is any `float`: the source only tests its type and writes it to the log.
mutual
  pub data Value : Type 0 where
    null real : Value
    bool : Bool → Value
    int : ℤ → Value
    str : Text → Value
    list : Values → Value
    dict : Entries → Value

  pub data Values : Type 0 where
    nil : Values
    cons : Value → Values → Values

  pub data Entries : Type 0 where
    end : Entries
    entry : Text → Value → Entries → Entries

-- The text of a value that is known to be one.
abbrev pub text_of : Value → Text
text_of (str s) = s
text_of _ = []

-- `bool` is a subclass of `int`: `True` is 1 and `False` is 0.
abbrev pub bool_value : Bool → ℤ
bool_value true = pos 1
bool_value false = pos 0

abbrev pub items_of : Values → List Value
items_of nil = []
items_of (cons v vs) = v ∷ items_of vs

abbrev pub entries_of : Entries → List (Text × Value)
entries_of end = []
entries_of (entry key v es) = (key, v) ∷ entries_of es

-- `d.get(key)`, and `none` where the key is not in the dictionary
unfoldable pub get_value : List (Text × Value) → Text → Option Value
get_value [] key = none
get_value ((k, v) ∷ es) key = if text_eq k key then some v else get_value es key
