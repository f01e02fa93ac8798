-- ===== src/Tests/Retry.antt =====
-- The sample request again, where its transaction is stored.
use payment_sim.Tests.Samples.{
  small_host, small_config, purchase_request, sample_row, db_with, Differ,
}
use payment_sim.Value.{
  Fields, Value, obj, undefined, get, set_prop, delete_prop, to_string, join_items, to_number,
}
use payment_sim.Value.Numbers.{unit, of_ℕ}
use payment_sim.App.{
  Response, spread, pin_verified, accepted_entry, request_fields, server_fields, full_fields,
  save_response, pay,
}
use payment_sim.App.Retry.{IsAccepted, pay_again}
use payment_sim.App.Ownership.{overridden}
use payment_sim.RequestHash.{
  units, units_le, key_le, insert_sorted, sort_value, sort_items, sort_fields, canonicalize,
  create_request_hash,
}
use payment_sim.RequestHash.Json.{escaped, json_quoted, json_members, json_value}
use payment_sim.Store.Tables.{completed, first_where}
use payment_sim.Store.Sql.{query, begin, commit, rollback, ◌>>=◌, or_rollback}
use payment_sim.Store.Save.{insert_outbox_event, is_conflict, save_transaction_with_outbox}
use payment_sim.Store.Save.Statements.{
  parameter, parameter_or_null, row_of, transaction_values, insert_row, insert_transaction,
  select_by_key, insert_event_row, insert_event,
}
use payment_sim.Store.Save.Idempotency.{on}
use payment_sim.Validation.{
  includes, required_fields, missing_fields, length_utf16, accepted_transaction, reject_if,
  check_fields, validate_transaction,
}
use payment_sim.Risk.{evaluate_risk}
use payment_sim.Sensitive.{
  get_card_fingerprint_secret, digits_of, chars, last_four, only_digits, card_last4,
  card_fingerprint, is_sensitive_key, is_dropped, remove_sensitive_fields, remove_items,
  remove_fields, add_text, with_card_fields, sanitize_transaction_for_persistence, sanitize_payload,
  mask_fields, mask_sensitive_data,
}
use payment_sim.Prelude.{◌≡◌, refl, some, Result, throw, ok}

abbrev value_of : Result Value → Value
value_of (ok v) = v
value_of (throw e) = undefined

abbrev sample_txn : Fields
sample_txn = accepted_transaction purchase_request.body (of_ℕ 120)

abbrev sample_full : Value
sample_full = value_of (
    sanitize_transaction_for_persistence small_host
      (obj (full_fields "txn-1" "client-1" "key-1" "digest" "2024-01-01T00:00:00.000Z" sample_txn)))

key_given : Differ "key-1" ""
key_given e = cc

sample-IsAccepted :
    IsAccepted small_host small_config "client-1" purchase_request "key-1" "digest" sample_txn
      sample_full
      (row_of small_host sample_full 1000 "txn-1" "DOMESTIC_POS")
unfolding pay or_rollback begin query commit rollback ◌>>=◌ save_transaction_with_outbox
    create_request_hash canonicalize json_value json_quoted escaped json_members sort_value
    sort_items sort_fields insert_sorted key_le units units_le mask_sensitive_data mask_fields
    card_last4 only_digits digits_of last_four chars remove_sensitive_fields remove_fields
    remove_items is_dropped is_sensitive_key set_prop delete_prop get to_string join_items to_number
    validate_transaction check_fields missing_fields includes required_fields reject_if
    accepted_transaction length_utf16 evaluate_risk full_fields spread request_fields server_fields
    pin_verified accepted_entry sanitize_transaction_for_persistence sanitize_payload
    with_card_fields add_text card_fingerprint get_card_fingerprint_secret transaction_values
    parameter parameter_or_null row_of insert_row insert_transaction insert_event insert_event_row
    first_where save_response unit insert_outbox_event select_by_key is_conflict overridden
sample-IsAccepted = record {
  keyed = refl;
  given = key_given;
  hashed = refl;
  logged = (value_of (mask_sensitive_data small_host purchase_request.body), refl);
  validated = refl;
  approved = refl;
  sanitized = refl;
  made = refl;
  own_key = refl;
  own_hash = refl;
}

abbrev first_answer : Response
first_answer = record {
  code = 200;
  status = some completed;
  transaction_id = some "txn-1";
  reason = some "Duplicate request detected. Returning original transaction.";
}

pay_again_example :
    pay small_host small_config "client-1" purchase_request (on (db_with completed))
    ≡ (first_answer, on (db_with completed))
unfolding first_where
pay_again_example =
    pay_again small_host small_config "client-1" purchase_request "key-1" "digest" sample_txn
      sample_full (row_of small_host sample_full 1000 "txn-1" "DOMESTIC_POS") (db_with completed)
      (sample_row completed) sample-IsAccepted (λ s. refl) refl
