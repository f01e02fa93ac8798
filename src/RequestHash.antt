-- ===== src/RequestHash.antt =====
-- utils/requestHash.js, for values whose property names are neither array indices nor `__proto__`:
-- the engine puts the former first, and takes an assignment to the latter for the prototype.
pub mod Json
pub mod Order
pub mod Reordered
pub mod Canonical
use payment_sim.Value.{Value, arr, obj, Items, nil, cons, Fields, end, field, Host}
use payment_sim.RequestHash.Json.{json_value}
use payment_sim.Prelude.{
  ℕ, ◌+◌, ◌-◌, ◌/◌, String, Bool, true, false, Option, none, some, List, [], ◌∷◌, ltb,
  if◌then◌else◌, Result, ok, throw,
}
use Prim.Native.Char.{code}
use Prim.Native.String
use Prim.Native.Nat.{◌%◌}

-- the UTF-16 units of a text
unfoldable pub units : String → List ℕ
units String.[] = []
units (String.◌∷◌ c s) =
    let rest = units s in
    if ltb (code c) 65536
    then code c ∷ rest
    else (55296 + (code c - 65536) / 1024) ∷ (56320 + (code c - 65536) % 1024) ∷ rest

-- `a <= b` of two lists of units
unfoldable pub units_le : List ℕ → List ℕ → Bool
units_le [] ys = true
units_le (x ∷ xs) [] = false
units_le (x ∷ xs) (y ∷ ys) =
    let rest = units_le xs ys in if ltb x y then true else if ltb y x then false else rest

unfoldable pub key_le : String → String → Bool
unfolding units units_le
key_le a b = units_le (units a) (units b)

-- `Object.keys(value).sort()`, with the sorted values beside the names
unfoldable pub insert_sorted : String → Value → Fields → Fields
insert_sorted k v end = field k v end
insert_sorted k v (field j w fs) =
    let rest = insert_sorted k v fs in
    if key_le k j then field k v (field j w fs) else field j w rest

unfoldable mutual
  pub sort_value : Value → Value
  sort_value (arr xs) = arr (sort_items xs)
  sort_value (obj fs) = obj (sort_fields fs)
  sort_value v = v

  pub sort_items : Items → Items
  sort_items nil = nil
  sort_items (cons v xs) = cons (sort_value v) (sort_items xs)

  pub sort_fields : Fields → Fields
  sort_fields end = end
  sort_fields (field k v fs) = insert_sorted k (sort_value v) (sort_fields fs)

unfoldable pub canonicalize : Host → Value → Option String
canonicalize h v = json_value h (sort_value v)

-- `update` throws on `undefined`, which `JSON.stringify` answers when there is no body.
unfoldable pub create_request_hash : Host → Value → Result String
unfolding canonicalize
create_request_hash h v = elim (canonicalize h v) [
  | none ↦
      throw
        "The \"data\" argument must be of type string or an instance of Buffer, TypedArray, or DataView."
  | some text ↦ ok (h.sha256 text)
]
