-- ===== src/Sensitive.antt =====
-- utils/sensitiveData.js: what is removed from a transaction before it is stored, queued, logged
-- or returned. Assigning the key `__proto__` adds no property, so that key is dropped too.
pub mod Removal
pub mod Stable
pub mod Cards
use Prim.Native.Char.{Char, code}
use Prim.Native.String
use payment_sim.Prelude.{
  ℕ, suc, String, Bool, true, false, ◌&&◌, ◌||◌, Option, none, some, ◌==◌, leb, if◌then◌else◌,
  Result, ok, throw, ◌>>=◌,
}
use payment_sim.Value.{
  Value, undefined, null, bool, num, str, arr, obj, Items, nil, cons, Fields, end, field, Host,
  truthy, or_value, is_object, prop, set_prop, delete_prop, to_string,
}

abbrev pub dev_card_fingerprint_secret : String
dev_card_fingerprint_secret = "dev-card-fingerprint-secret"

-- `env[name]`, taken for missing when it is empty
abbrev pub env_text : (String → Option String) → String → Option String
env_text env name = elim (env name) [ none ↦ none | some s ↦ if s == "" then none else some s ]

abbrev pub is_production : (String → Option String) → Bool
is_production env = elim (env "NODE_ENV") [ none ↦ false | some s ↦ s == "production" ]

unfoldable pub get_card_fingerprint_secret : (String → Option String) → Result String
get_card_fingerprint_secret env = elim (env_text env "CARD_FINGERPRINT_SECRET") [
  | some secret ↦ ok secret
  | none ↦
      if is_production env
      then throw "CARD_FINGERPRINT_SECRET must be set when NODE_ENV=production"
      else ok dev_card_fingerprint_secret
]

abbrev pub is_digit : Char → Bool
is_digit c = leb b'0' (code c) && leb (code c) b'9'

-- `s.replace(/\D/g, "")`
unfoldable pub digits_of : String → String
digits_of String.[] = ""
digits_of (String.◌∷◌ c s) =
    let rest = digits_of s in if is_digit c then String.◌∷◌ c rest else rest

-- the number of characters
unfoldable pub chars : String → ℕ
chars String.[] = 0
chars (String.◌∷◌ c s) = suc (chars s)

-- `s.slice(-4)`, for a text of digits
unfoldable pub last_four : String → String
unfolding chars
last_four String.[] = ""
last_four (String.◌∷◌ c s) =
    let rest = last_four s in if leb (chars s) 3 then String.◌∷◌ c s else rest

unfoldable pub only_digits : Host → Value → String
only_digits h v = if truthy v then digits_of (to_string h v) else ""

unfoldable pub card_last4 : Host → Value → Option String
card_last4 h v =
    let digits = only_digits h v in if digits == "" then none else some (last_four digits)

unfoldable pub card_fingerprint : Host → Value → Result (Option String)
card_fingerprint h v =
    let digits = only_digits h v in
    if digits == ""
    then ok none
    else do secret ← get_card_fingerprint_secret h.env; ok (some (h.hmac_sha256 secret digits))

unfoldable pub is_sensitive_key : String → Bool
is_sensitive_key k = k == "pin" || k == "cardNumber" || k == "card_number"

-- the keys that `sanitized[key] = ...` leaves out, and those that are skipped
unfoldable pub is_dropped : String → Bool
unfolding is_sensitive_key
is_dropped k = is_sensitive_key k || k == "__proto__"

unfoldable mutual
  pub remove_sensitive_fields : Value → Value
  remove_sensitive_fields (arr xs) = arr (remove_items xs)
  remove_sensitive_fields (obj fs) = obj (remove_fields fs)
  remove_sensitive_fields v = v

  pub remove_items : Items → Items
  remove_items nil = nil
  remove_items (cons v xs) = cons (remove_sensitive_fields v) (remove_items xs)

  pub remove_fields : Fields → Fields
  remove_fields end = end
  remove_fields (field k v fs) =
      if is_dropped k
      then remove_fields fs
      else field k (remove_sensitive_fields v) (remove_fields fs)

-- `if (text) { fs[camel] = text; fs[snake] = text; }`
unfoldable pub add_text : Option String → String → String → Fields → Fields
add_text none camel snake fs = fs
add_text (some s) camel snake fs = set_prop snake (str s) (set_prop camel (str s) fs)

abbrev pub card_number_of : Value → Value
card_number_of txn = or_value (prop "cardNumber" txn) (prop "card_number" txn)

-- the sanitized properties with the card fields added
unfoldable pub with_card_fields : Host → Fields → Option String → Fields
with_card_fields h fs fingerprint =
    add_text fingerprint "cardFingerprint" "card_fingerprint" (
      add_text (card_last4 h (card_number_of (obj fs))) "cardLast4" "card_last4" (remove_fields fs))

-- Only an object has card fields; an array has none of its own. `undefined` and `null` have no
-- properties to read.
unfoldable pub sanitize_transaction_for_persistence : Host → Value → Result Value
sanitize_transaction_for_persistence h (obj fs) = do
  fingerprint ← card_fingerprint h (card_number_of (obj fs))
  ok (obj (with_card_fields h fs fingerprint))
sanitize_transaction_for_persistence h undefined =
    throw "Cannot read properties of undefined (reading 'cardNumber')"
sanitize_transaction_for_persistence h null =
    throw "Cannot read properties of null (reading 'cardNumber')"
sanitize_transaction_for_persistence h v = ok (remove_sensitive_fields v)

unfoldable pub sanitize_payload : Host → Value → Result Value
sanitize_payload h v =
    if is_object v then sanitize_transaction_for_persistence h v else ok (remove_sensitive_fields v)

abbrev pub delete_fingerprint : Fields → Fields
delete_fingerprint fs = delete_prop "card_fingerprint" (delete_prop "cardFingerprint" fs)

-- Stored transactions are objects.
unfoldable pub serialize_transaction_response : Fields → Fields
serialize_transaction_response txn = delete_fingerprint (remove_fields txn)

unfoldable pub mask_fields : Option String → Fields → Fields
mask_fields none fs = fs
mask_fields (some last4) fs =
    set_prop "cardNumber" (str (String.◌++◌ "****" last4)) (set_prop "cardLast4" (str last4) fs)

-- `delete` of a property of `undefined` or `null` throws.
unfoldable pub mask_sensitive_data : Host → Value → Result Value
mask_sensitive_data h undefined = throw "Cannot convert undefined or null to object"
mask_sensitive_data h null = throw "Cannot convert undefined or null to object"
mask_sensitive_data h (obj fs) = ok (
    obj (
      mask_fields (card_last4 h (card_number_of (obj fs))) (delete_fingerprint (remove_fields fs))))
mask_sensitive_data h v = ok (remove_sensitive_fields v)
