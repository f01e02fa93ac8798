-- ===== src/RequestHash/Json.antt =====
-- `JSON.stringify` without indentation, on plain data.
use payment_sim.Value.{
  Value, undefined, null, bool, num, str, arr, obj, Items, nil, cons, Fields, end, field, Host,
}
use payment_sim.Value.Numbers.{Num, finite}
use payment_sim.Prelude.{
  ℕ, zero, suc, ◌/◌, String, true, false, Option, none, some, List, [], eqb, ltb, if◌then◌else◌,
}
use Prim.Native.Char.{Char, code}
use Prim.Native.String.{◌++◌}
use mathlib.Core.List.{◌∷◌}
use Prim.Native.Nat.{◌%◌}

abbrev hex_digits : List String
hex_digits =
    "0" ∷ "1" ∷ "2" ∷ "3" ∷ "4" ∷ "5" ∷ "6" ∷ "7" ∷ "8" ∷ "9" ∷ "a" ∷ "b" ∷ "c" ∷ "d" ∷ "e" ∷ "f"
    ∷ []

abbrev nth : ℕ → List String → String
nth n [] = ""
nth zero (x ∷ xs) = x
nth (suc n) (x ∷ xs) = nth n xs

-- one character inside quotes
unfoldable pub escaped : Char → String → String
escaped c rest =
    let n = code c in
    if eqb n 34
    then "\\\"" ++ rest
    else if eqb n 92
    then "\\\\" ++ rest
    else if eqb n 8
    then "\\b" ++ rest
    else if eqb n 9
    then "\\t" ++ rest
    else if eqb n 10
    then "\\n" ++ rest
    else if eqb n 12
    then "\\f" ++ rest
    else if eqb n 13
    then "\\r" ++ rest
    else if ltb n 32
    then "\\u00" ++ nth (n / 16) hex_digits ++ nth (n % 16) hex_digits ++ rest
    else String.◌∷◌ c rest

unfoldable pub json_quoted : String → String
unfolding escaped
json_quoted String.[] = "\""
json_quoted (String.◌∷◌ c s) = escaped c (json_quoted s)

-- the members of a list or an object, with commas between them
unfoldable pub json_members : List String → String
json_members [] = ""
json_members (s ∷ []) = s
json_members (s ∷ t ∷ ts) = s ++ "," ++ json_members (t ∷ ts)

abbrev json_number : Host → Num → String
json_number h (finite n) = h.string_of_number (finite n)
json_number h n = "null"

-- In an array, what has no text is `null`.
abbrev json_element : Option String → String
json_element none = "null"
json_element (some s) = s

-- In an object, it is left out.
abbrev json_member : String → Option String → List String → List String
json_member k none rest = rest
json_member k (some s) rest = ("\"" ++ json_quoted k ++ ":" ++ s) ∷ rest

module _ (h : Host) where
  unfoldable mutual
    unfolding json_quoted json_members

    pub json_value : Value → Option String
    json_value undefined = none
    json_value null = some "null"
    json_value (bool true) = some "true"
    json_value (bool false) = some "false"
    json_value (num n) = some (json_number h n)
    json_value (str s) = some ("\"" ++ json_quoted s)
    json_value (arr xs) = some ("[" ++ json_members (json_items xs) ++ "]")
    json_value (obj fs) = some ("{" ++ json_members (json_fields fs) ++ "}")

    pub json_items : Items → List String
    json_items nil = []
    json_items (cons v xs) = json_element (json_value v) ∷ json_items xs

    pub json_fields : Fields → List String
    json_fields end = []
    json_fields (field k v fs) = json_member k (json_value v) (json_fields fs)
