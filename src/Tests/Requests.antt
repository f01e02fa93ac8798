-- ===== src/Tests/Requests.antt =====
-- `POST /pay` on the sample request.
use payment_sim.Tests.Samples.{
  small_host, small_config, purchase_request, spoofed_request, empty_db, sample_row, Differ,
}
use payment_sim.Value.{
  Value, undefined, str, obj, get, set_prop, delete_prop, to_string, join_items, to_number,
}
use payment_sim.Value.Numbers.{unit, of_ℕ}
use payment_sim.App.{
  Response, spread, pin_verified, accepted_entry, request_fields, server_fields, full_fields,
  save_response, pay,
}
use payment_sim.App.Pay.{IsStored, pay_stores}
use payment_sim.App.Ownership.{overridden, stored_owner}
use payment_sim.Auth.{client, can_access_transaction_status}
use payment_sim.RequestHash.{
  units, units_le, key_le, insert_sorted, sort_value, sort_items, sort_fields, canonicalize,
  create_request_hash,
}
use payment_sim.RequestHash.Json.{escaped, json_quoted, json_members, json_value}
use payment_sim.Store.Tables.{accepted, Row, Event, first_where}
use payment_sim.Store.Sql.{Session, query, begin, commit, rollback, ◌>>=◌, or_rollback}
use payment_sim.Store.Save.{insert_outbox_event, is_conflict, save_transaction_with_outbox}
use payment_sim.Store.Save.Atomic.{save_transaction_with_outbox_atomic}
use payment_sim.Store.Save.Statements.{
  parameter, parameter_or_null, row_of, transaction_values, insert_row, insert_transaction,
  select_by_key, new_event, insert_event_row, insert_event,
}
use payment_sim.Store.Save.Inserts.{HasOutboxEvent, IsSaved, SaveEnsures}
use payment_sim.Validation.{
  includes, required_fields, missing_fields, length_utf16, accepted_transaction, reject_if,
  check_fields, validate_transaction,
}
use payment_sim.Risk.{evaluate_risk}
use payment_sim.Sensitive.{
  get_card_fingerprint_secret, digits_of, chars, last_four, only_digits, card_last4,
  card_fingerprint, is_sensitive_key, is_dropped, remove_sensitive_fields, remove_items,
  remove_fields, add_text, with_card_fields, sanitize_transaction_for_persistence, sanitize_payload,
  mask_fields, mask_sensitive_data,
}
use payment_sim.Prelude.{
  ◌≡◌, refl, ap, ◌⊎◌, inr, true, false, some, List, [], ◌∷◌, length, Result, ok, throw,
}
use payment_sim.System.{session_on}

abbrev session : Session
session = session_on empty_db []

abbrev result : Response × Session
result = pay small_host small_config "client-1" purchase_request session

-- A first request is accepted and stored.
accepted_first : (result.0.code ≡ 202) × (length result.1.committed.transactions ≡ 1)
unfolding pay or_rollback begin query commit rollback ◌>>=◌ save_transaction_with_outbox
    create_request_hash canonicalize json_value json_quoted escaped json_members sort_value
    sort_items sort_fields insert_sorted key_le units units_le mask_sensitive_data mask_fields
    card_last4 only_digits digits_of last_four chars remove_sensitive_fields remove_fields
    remove_items is_dropped is_sensitive_key set_prop delete_prop get to_string join_items to_number
    validate_transaction check_fields missing_fields includes required_fields reject_if
    accepted_transaction length_utf16 evaluate_risk full_fields spread request_fields server_fields
    pin_verified accepted_entry sanitize_transaction_for_persistence sanitize_payload
    with_card_fields add_text card_fingerprint get_card_fingerprint_secret transaction_values
    parameter parameter_or_null row_of insert_row insert_transaction insert_event insert_event_row
    first_where save_response unit insert_outbox_event select_by_key is_conflict
accepted_first = (refl, refl)

abbrev reply : Session → Response × Session
reply s = pay small_host small_config "client-1" purchase_request s

-- The same request once more is answered with the stored transaction, and stores nothing.
accepted_again :
    let (r, s) = reply (reply session).1 in
    (r.code ≡ 200) × (r.transaction_id ≡ some "txn-1") × (length s.committed.transactions ≡ 1)
unfolding pay or_rollback begin query commit rollback ◌>>=◌ save_transaction_with_outbox
    create_request_hash canonicalize json_value json_quoted escaped json_members sort_value
    sort_items sort_fields insert_sorted key_le units units_le mask_sensitive_data mask_fields
    card_last4 only_digits digits_of last_four chars remove_sensitive_fields remove_fields
    remove_items is_dropped is_sensitive_key set_prop delete_prop get to_string join_items to_number
    validate_transaction check_fields missing_fields includes required_fields reject_if
    accepted_transaction length_utf16 evaluate_risk full_fields spread request_fields server_fields
    pin_verified accepted_entry sanitize_transaction_for_persistence sanitize_payload
    with_card_fields add_text card_fingerprint get_card_fingerprint_secret transaction_values
    parameter parameter_or_null row_of insert_row insert_transaction insert_event insert_event_row
    first_where save_response unit insert_outbox_event select_by_key is_conflict
accepted_again = (refl, refl, refl)

pay_stores_example :
    (result.1.committed ≡ empty_db)
    ⊎ IsStored small_host small_config "client-1" purchase_request empty_db result.1.committed
pay_stores_example = pay_stores small_host small_config "client-1" purchase_request session

abbrev spoofed : Session
spoofed = (pay small_host small_config "client-1" spoofed_request session).1

abbrev value_of : Result Value → Value
value_of (ok v) = v
value_of (throw e) = undefined

abbrev first_row : List Row → Row
first_row [] = sample_row accepted
first_row (r ∷ rs) = r

abbrev first_event : List Event → Event
first_event [] = new_event 0 "" undefined 0
first_event (e ∷ es) = e

abbrev spoofed_full : Value
spoofed_full = value_of (
    sanitize_transaction_for_persistence small_host (
      obj (
        full_fields "txn-1" "client-1" "key-1" "digest" "2024-01-01T00:00:00.000Z"
          (accepted_transaction spoofed_request.body (of_ℕ 120)))))

spoofed_event :
    HasOutboxEvent (first_row spoofed.committed.transactions).txn_id empty_db spoofed.committed
unfolding pay or_rollback begin query commit rollback ◌>>=◌ save_transaction_with_outbox
    create_request_hash canonicalize json_value json_quoted escaped json_members sort_value
    sort_items sort_fields insert_sorted key_le units units_le mask_sensitive_data mask_fields
    card_last4 only_digits digits_of last_four chars remove_sensitive_fields remove_fields
    remove_items is_dropped is_sensitive_key set_prop delete_prop get to_string join_items to_number
    validate_transaction check_fields missing_fields includes required_fields reject_if
    accepted_transaction length_utf16 evaluate_risk full_fields spread request_fields server_fields
    pin_verified accepted_entry sanitize_transaction_for_persistence sanitize_payload
    with_card_fields add_text card_fingerprint get_card_fingerprint_secret transaction_values
    parameter parameter_or_null row_of insert_row insert_transaction insert_event insert_event_row
    first_where save_response unit insert_outbox_event select_by_key is_conflict
spoofed_event = record {
  event = (first_event spoofed.committed.outbox_events, refl);
  added = inr (first_event spoofed.committed.outbox_events, refl, refl, refl, refl, refl);
  advanced = refl;
  dead_letters = refl;
}

spoofed-IsSaved :
    IsSaved small_host spoofed_full 1000
      (first_row spoofed.committed.transactions)
      empty_db
      spoofed.committed
unfolding pay or_rollback begin query commit rollback ◌>>=◌ save_transaction_with_outbox
    create_request_hash canonicalize json_value json_quoted escaped json_members sort_value
    sort_items sort_fields insert_sorted key_le units units_le mask_sensitive_data mask_fields
    card_last4 only_digits digits_of last_four chars remove_sensitive_fields remove_fields
    remove_items is_dropped is_sensitive_key set_prop delete_prop get to_string join_items to_number
    validate_transaction check_fields missing_fields includes required_fields reject_if
    accepted_transaction length_utf16 evaluate_risk full_fields spread request_fields server_fields
    pin_verified accepted_entry sanitize_transaction_for_persistence sanitize_payload
    with_card_fields add_text card_fingerprint get_card_fingerprint_secret transaction_values
    parameter parameter_or_null row_of insert_row insert_transaction insert_event insert_event_row
    first_where save_response unit insert_outbox_event select_by_key is_conflict
spoofed-IsSaved = record {
  row = refl;
  values = (spoofed_full, refl, refl);
  event = spoofed_event;
  fresh = refl;
  new_id = refl;
}

abbrev IsSpoofed : Type 0
IsSpoofed =
    (x : IsStored small_host small_config "client-1" spoofed_request empty_db spoofed.committed)
    × (x.txn ≡ accepted_transaction spoofed_request.body (of_ℕ 120))

spoofed_stored : IsSpoofed
unfolding pay or_rollback begin query commit rollback ◌>>=◌ save_transaction_with_outbox
    create_request_hash canonicalize json_value json_quoted escaped json_members sort_value
    sort_items sort_fields insert_sorted key_le units units_le mask_sensitive_data mask_fields
    card_last4 only_digits digits_of last_four chars remove_sensitive_fields remove_fields
    remove_items is_dropped is_sensitive_key set_prop delete_prop get to_string join_items to_number
    validate_transaction check_fields missing_fields includes required_fields reject_if
    accepted_transaction length_utf16 evaluate_risk full_fields spread request_fields server_fields
    pin_verified accepted_entry sanitize_transaction_for_persistence sanitize_payload
    with_card_fields add_text card_fingerprint get_card_fingerprint_secret transaction_values
    parameter parameter_or_null row_of insert_row insert_transaction insert_event insert_event_row
    first_where save_response unit insert_outbox_event select_by_key is_conflict
spoofed_stored = (
  record {
    key = "key-1";
    keyed = refl;
    digest = "digest";
    hashed = refl;
    txn = accepted_transaction spoofed_request.body (of_ℕ 120);
    validated = refl;
    approved = refl;
    full = spoofed_full;
    sanitized = refl;
    row = first_row spoofed.committed.transactions;
    saved = spoofed-IsSaved;
  },
  refl,
)

victim_named : Differ "victim" ""
victim_named e = cc

victim_is_other : Differ "client-1" "victim"
victim_is_other e = cc

spoofed_owner : overridden "clientId" spoofed_stored.0.txn (str "client-1") ≡ str "victim"
unfolding overridden accepted_transaction set_prop get unit
spoofed_owner = ap (λ fs. overridden "clientId" fs (str "client-1")) spoofed_stored.1

stored_owner_example :
    (can_access_transaction_status (client "victim") spoofed_stored.0.row ≡ true)
    × (can_access_transaction_status (client "client-1") spoofed_stored.0.row ≡ false)
stored_owner_example =
    stored_owner small_host small_config "client-1" spoofed_request empty_db spoofed.committed
      spoofed_stored.0 "victim" spoofed_owner victim_named victim_is_other (λ s. refl)

save_transaction_with_outbox_atomic_example :
    let (r, s) = save_transaction_with_outbox small_host spoofed_full 1000 session in
    SaveEnsures small_host spoofed_full 1000 empty_db r s.committed
save_transaction_with_outbox_atomic_example =
    save_transaction_with_outbox_atomic small_host spoofed_full 1000 session
