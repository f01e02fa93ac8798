-- ===== src/Validation.antt =====
-- validation/validator.js
pub mod Accepts
pub mod Laws
use Prim.Native.Char.{code}
use Prim.Native.String
use payment_sim.Prelude.{
  ℕ, ◌+◌, String, Bool, true, false, not, ◌&&◌, ◌||◌, List, [], ◌∷◌, ◌==◌, ltb, if◌then◌else◌,
}
use payment_sim.Value.{
  Value, undefined, null, num, str, obj, Fields, end, Host, truthy, is_str, get, prop, set_prop,
  to_string, to_number,
}
use payment_sim.Value.Numbers.{Num, of_ℕ, num_lt, num_le, is_finite}
use payment_sim.Config.{
  Config, supported_issuer_types, supported_networks, supported_transaction_types,
  supported_channels,
}

pub data Verdict : Type 0 where
  valid : Fields → Verdict
  invalid : String → Verdict

-- `v === undefined || v === null || v === ""`
abbrev pub is_absent : Value → Bool
is_absent undefined = true
is_absent null = true
is_absent (str s) = s == ""
is_absent _ = false

-- `xs.includes(v)` of a list of texts
unfoldable pub includes : List String → Value → Bool
includes [] v = false
includes (x ∷ xs) v = is_str x v || includes xs v

unfoldable pub required_fields : List String
required_fields = "amount" ∷ "fromAccount" ∷ "toAccount" ∷ "type" ∷ "channel" ∷ "issuerType" ∷ []

unfoldable pub missing_fields : Value → List String → List String
missing_fields txn [] = []
missing_fields txn (k ∷ ks) =
    let rest = missing_fields txn ks in if is_absent (prop k txn) then k ∷ rest else rest

-- `names.join(", ")`
unfoldable pub join_names : List String → String
join_names [] = ""
join_names (x ∷ []) = x
join_names (x ∷ y ∷ xs) = String.◌++◌ x (String.◌++◌ ", " (join_names (y ∷ xs)))

-- `s.length`, in UTF-16 units
unfoldable pub length_utf16 : String → ℕ
length_utf16 String.[] = 0
length_utf16 (String.◌∷◌ c s) = (if ltb (code c) 65536 then 1 else 2) + length_utf16 s

-- `{ ...txn, amount, type: txn.type }`; a request body that gets here is an object
unfoldable pub accepted_transaction : Value → Num → Fields
accepted_transaction (obj fs) amount =
    set_prop "type" (get "type" fs) (set_prop "amount" (num amount) fs)
accepted_transaction v amount = set_prop "type" undefined (set_prop "amount" (num amount) end)

abbrev pub is_empty : List String → Bool
is_empty [] = true
is_empty (x ∷ xs) = false

-- `if (test) return { valid: false, reason };`, and what follows
unfoldable pub reject_if : Bool → String → Verdict → Verdict
reject_if true reason rest = invalid reason
reject_if false reason rest = rest

-- the tests below the one for missing fields, in their order
unfoldable pub check_fields : Host → Config → Value → Verdict
check_fields h cfg txn =
    let amount = to_number h (prop "amount" txn) in
    let type = prop "type" txn in
    let issuer_type = prop "issuerType" txn in
    let network = prop "network" txn in
    let card_number = prop "cardNumber" txn in
    reject_if (not (is_finite amount)) "Amount must be a number" (
      reject_if (not (is_str "BALANCE_INQUIRY" type) && num_le amount (of_ℕ 0))
        "Amount must be greater than 0"
        (reject_if (num_lt cfg.transaction_limit amount) "Amount exceeds transaction limit" (
          reject_if (not (includes supported_transaction_types type)) "Invalid transaction type" (
            reject_if (not (includes supported_issuer_types issuer_type))
              "Issuer type must be INTERNAL or EXTERNAL"
              (reject_if (not (includes supported_channels (prop "channel" txn))) "Invalid channel"
                (reject_if (is_str "EXTERNAL" issuer_type && not (truthy network))
                  "Network is required for external issuer"
                  (reject_if (truthy network && not (includes supported_networks network))
                    "Network must be EXTERNAL_PROCESSOR or CARD_NETWORK"
                    (reject_if
                      (truthy card_number && ltb (length_utf16 (to_string h card_number)) 4)
                      "Card number is too short" (valid (accepted_transaction txn amount))))))))))

unfoldable pub validate_transaction : Host → Config → Value → Verdict
validate_transaction h cfg txn =
    let missing = missing_fields txn required_fields in
    reject_if (not (is_empty missing))
      (String.◌++◌ "Missing required fields: " (join_names missing)) (check_fields h cfg txn)
