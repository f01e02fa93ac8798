-- ===== src/Tests/Records.antt =====
-- Sanitizing, validation and the start-up check on small data.
use payment_sim.Auth.{Env}
use payment_sim.Tests.Samples.{small_host, small_config, purchase}
use payment_sim.Value.{
  Fields, field, end, Value, bool, obj, undefined, null, get, to_string, delete_prop, to_number,
  prop,
}
use payment_sim.Value.Numbers.{ℤ, finite}
use payment_sim.RequestHash.{units, create_request_hash, sort_value}
use payment_sim.RequestHash.Reordered.{objects, swap, create_request_hash-Reordered, Reordered}
use payment_sim.Sensitive.{
  get_card_fingerprint_secret, digits_of, only_digits, card_fingerprint, remove_sensitive_fields,
  card_number_of, with_card_fields, sanitize_transaction_for_persistence, sanitize_payload,
  serialize_transaction_response, mask_sensitive_data,
}
use payment_sim.Sensitive.Removal.{IsClean, HaveClean, sanitize_payload-IsClean}
use payment_sim.Sensitive.Stable.{sanitize_payload_idempotent}
use payment_sim.Sensitive.Cards.{
  serialize_transaction_response_safe, serialize_transaction_response_keeps, ShowsLastFour,
  mask_sensitive_data_safe, ShowsLastFour,
}
use payment_sim.Validation.{valid, validate_transaction}
use payment_sim.Validation.Accepts.{IsAcceptable}
use payment_sim.Validation.Laws.{validate_transaction_iff, IsConverted}
use payment_sim.Prelude.{◌≡◌, refl, ◌≢◌, ◌↔◌, true, some, arith, ok, All, ◌∷◌, [], String}
use payment_sim.RequestHash.Canonical.{sort_value_iff}
use payment_sim.Auth.{Env}

sanitize_payload-IsClean_example : IsClean (obj (with_card_fields small_host purchase (some "mac")))
unfolding sanitize_payload sanitize_transaction_for_persistence card_fingerprint only_digits
    to_string digits_of get get_card_fingerprint_secret
sanitize_payload-IsClean_example =
    sanitize_payload-IsClean small_host (obj purchase)
      (obj (with_card_fields small_host purchase (some "mac"))) refl

sanitize_payload_idempotent_example :
    sanitize_payload small_host (obj (with_card_fields small_host purchase (some "mac")))
    ≡ ok (obj (with_card_fields small_host purchase (some "mac")))
unfolding sanitize_payload sanitize_transaction_for_persistence card_fingerprint only_digits
    to_string digits_of get get_card_fingerprint_secret
sanitize_payload_idempotent_example =
    sanitize_payload_idempotent small_host (obj purchase)
      (obj (with_card_fields small_host purchase (some "mac"))) refl

serialize_transaction_response_safe_example :
    HaveClean (serialize_transaction_response purchase)
    × (get "cardFingerprint" (serialize_transaction_response purchase) ≡ undefined)
    × (get "card_fingerprint" (serialize_transaction_response purchase) ≡ undefined)
serialize_transaction_response_safe_example = serialize_transaction_response_safe purchase

other_names :
    All
      (λ (j : String). "amount" ≢ j)
      ("pin" ∷ "cardNumber" ∷ "card_number" ∷ "cardFingerprint" ∷ "card_fingerprint" ∷ "__proto__"
        ∷ [])
other_names = (λ e. cc, (λ e. cc, (λ e. cc, (λ e. cc, (λ e. cc, (λ e. cc, tt))))))

serialize_transaction_response_keeps_example :
    get "amount" (serialize_transaction_response purchase)
    ≡ remove_sensitive_fields (get "amount" purchase)
serialize_transaction_response_keeps_example =
    serialize_transaction_response_keeps purchase "amount" other_names

mask_sensitive_data_safe_example :
    (u : Fields) × (mask_sensitive_data small_host (obj purchase) ≡ ok (obj u))
    × ShowsLastFour (only_digits small_host (card_number_of (obj purchase))) (get "cardNumber" u)
    × HaveClean (delete_prop "cardNumber" u)
    × (get "cardFingerprint" u ≡ undefined)
    × (get "card_fingerprint" u ≡ undefined)
mask_sensitive_data_safe_example = mask_sensitive_data_safe small_host purchase

abbrev no_file : Env → Env
no_file env = env

validate_transaction_iff_example :
    (((t : Fields) × (validate_transaction small_host small_config (obj purchase) ≡ valid t))
      ↔ ((a : ℤ) × IsAcceptable small_host small_config (obj purchase) a))
    × ((t : Fields)
        → validate_transaction small_host small_config (obj purchase) ≡ valid t
        → (a : ℤ) × (to_number small_host (prop "amount" (obj purchase)) ≡ finite a)
          × IsConverted (obj purchase) a t)
validate_transaction_iff_example = validate_transaction_iff small_host small_config (obj purchase)

different_units : units "a" ≢ units "b"
unfolding units
different_units e = ground arith

sort_value_iff_example :
    Reordered
      (obj (field "a" null (field "b" (bool true) end)))
      (obj (field "b" (bool true) (field "a" null end)))
    ↔ (sort_value (obj (field "a" null (field "b" (bool true) end)))
        ≡ sort_value (obj (field "b" (bool true) (field "a" null end))))
sort_value_iff_example =
    sort_value_iff (obj (field "a" null (field "b" (bool true) end)))
      (obj (field "b" (bool true) (field "a" null end)))

create_request_hash-Reordered_example :
    create_request_hash small_host (obj (field "a" null (field "b" (bool true) end)))
    ≡ create_request_hash small_host (obj (field "b" (bool true) (field "a" null end)))
create_request_hash-Reordered_example =
    create_request_hash-Reordered small_host (obj (field "a" null (field "b" (bool true) end)))
      (obj (field "b" (bool true) (field "a" null end))) (objects (swap different_units))
