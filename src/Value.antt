-- ===== src/Value.antt =====
-- JavaScript values as the program meets them: JSON data, and `undefined` for what is missing.
-- An object is its own enumerable properties, in property order. Conversions of objects that
-- define `toString` or `valueOf` themselves, and reads through a prototype, are left out.
pub mod Numbers
use payment_sim.Prelude.{
  ℕ, String, Bool, true, false, not, refl, Option, none, some, ◌==◌, arith, if◌then◌else◌,
}
use Prim.Native.String
use Numbers.{
  Num, ℤ, pos, negsuc, finite, infinity, neg_infinity, nan, num_lt, num_truthy, num_eq, of_ℕ,
}

mutual
  -- the properties of an object, in order
  pub data Fields : Type 0 where
    field : (key : String) → (value : Value) → (rest : Fields) → Fields
    end : Fields

  pub data Value : Type 0 where
    str : String → Value
    num : Num → Value
    bool : Bool → Value
    obj : Fields → Value
    arr : Items → Value
    undefined null : Value

  -- the elements of an array
  pub data Items : Type 0 where
    cons : (head : Value) → (rest : Items) → Items
    nil : Items

-- What the engine and the modules that the program calls compute: `Number` on a text, decimal
-- printing of a number, SHA-256, HMAC, the environment, the text that the PostgreSQL driver sends
-- for a parameter that is not null, and the comparison of the bytes of two texts of one length. A
-- theorem that needs a law of one of them assumes it.
pub record Host : Type 0 where
  pub number_of_string : String → Num
  pub string_of_number : Num → String
  pub sha256 : String → String
  pub hmac_sha256 : String → String → String
  pub env : String → Option String
  pub pg_text : Value → String
  pub timing_safe_equal : String → String → Bool

-- `Boolean(v)`
abbrev pub truthy : Value → Bool
truthy undefined = false
truthy null = false
truthy (bool b) = b
truthy (num n) = num_truthy n
truthy (str s) = not (s == "")
truthy (arr _) = true
truthy (obj _) = true

-- `v || w`
abbrev pub or_value : Value → Value → Value
or_value v w = if truthy v then v else w

-- `typeof v === "object" && v !== null`
abbrev pub is_object : Value → Bool
is_object (arr _) = true
is_object (obj _) = true
is_object _ = false

-- `v === s`
abbrev pub is_str : String → Value → Bool
is_str s (str t) = t == s
is_str s _ = false

-- `v === n`
abbrev pub is_num : Num → Value → Bool
is_num n (num m) = num_eq m n
is_num n _ = false

-- `v === null`
abbrev pub is_null : Value → Bool
is_null null = true
is_null _ = false

-- `v === true`
abbrev pub is_bool_true : Value → Bool
is_bool_true (bool b) = b
is_bool_true _ = false

-- `v[k]` of an object's properties
unfoldable pub get : String → Fields → Value
get k end = undefined
get k (field j v fs) = if j == k then v else get k fs

-- `v.k`; only objects of the program have the names that it reads
abbrev pub prop : String → Value → Value
prop k (obj fs) = get k fs
prop k _ = undefined

-- `fs[k] = v` for a name that is no array index: in place, or at the end
unfoldable pub set_prop : String → Value → Fields → Fields
set_prop k v end = field k v end
set_prop k v (field j w fs) = if j == k then field j v fs else field j w (set_prop k v fs)

-- `delete fs[k]`
unfoldable pub delete_prop : String → Fields → Fields
delete_prop k end = end
delete_prop k (field j v fs) =
    let rest = delete_prop k fs in if j == k then rest else field j v rest

-- what an element `v` that prints as `s` adds to a joined array
abbrev joined : Value → String → String
joined undefined s = ""
joined null s = ""
joined v s = s

module _ (h : Host) where
  unfoldable mutual
    -- `String(v)`
    pub to_string : Value → String
    to_string undefined = "undefined"
    to_string null = "null"
    to_string (bool true) = "true"
    to_string (bool false) = "false"
    to_string (num n) = h.string_of_number n
    to_string (str s) = s
    to_string (arr xs) = join_items xs
    to_string (obj fs) = "[object Object]"

    -- `xs.join(",")`
    pub join_items : Items → String
    join_items nil = ""
    join_items (cons v nil) = joined v (to_string v)
    join_items (cons v (cons w xs)) =
        String.◌++◌ (joined v (to_string v)) (String.◌++◌ "," (join_items (cons w xs)))

  -- `Number(v)`
  unfoldable pub to_number : Value → Num
  to_number undefined = nan
  to_number null = of_ℕ 0
  to_number (bool true) = of_ℕ 1
  to_number (bool false) = of_ℕ 0
  to_number (num n) = n
  to_number (str s) = h.number_of_string s
  to_number (arr xs) = h.number_of_string (join_items xs)
  to_number (obj fs) = nan

  -- `v > n` for a number `n`
  abbrev pub greater_than : Value → Num → Bool
  greater_than v n = num_lt n (to_number v)
