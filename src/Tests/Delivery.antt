-- ===== src/Tests/Delivery.antt =====
-- A payment on its way into the queue.
use payment_sim.Tests.Samples.{small_host, small_config, purchase_request}
use payment_sim.System.{System, Action, submit, claim_events, publish, perform, empty_system}
use payment_sim.System.Delivery.{Queued}
use payment_sim.System.Delivered.{claimed_by, begins, goes_on, sent-Queued}
use payment_sim.Store.Sql.{query, autocommit, begin, commit, rollback, ◌>>=◌, or_rollback}
use payment_sim.App.{
  spread, pin_verified, accepted_entry, request_fields, server_fields, full_fields, save_response,
  pay,
}
use payment_sim.Outbox.{pick_events}
use payment_sim.Outbox.Publish.{Enqueue, select_events, claim_in_transaction}
use payment_sim.Store.Tables.{sent, Event, update_where, first_where}
use payment_sim.Store.Save.{insert_outbox_event, is_conflict, save_transaction_with_outbox}
use payment_sim.Store.Save.Statements.{
  parameter, parameter_or_null, row_of, transaction_values, insert_row, insert_transaction,
  select_by_key, new_event, insert_event_row, insert_event,
}
use payment_sim.Sensitive.{
  get_card_fingerprint_secret, digits_of, chars, last_four, only_digits, card_last4,
  card_fingerprint, is_sensitive_key, is_dropped, remove_sensitive_fields, remove_items,
  remove_fields, add_text, with_card_fields, sanitize_transaction_for_persistence, sanitize_payload,
  mask_fields, mask_sensitive_data,
}
use payment_sim.RequestHash.{
  units, units_le, key_le, insert_sorted, sort_value, sort_items, sort_fields, canonicalize,
  create_request_hash,
}
use payment_sim.RequestHash.Json.{escaped, json_quoted, json_members, json_value}
use payment_sim.Validation.{
  includes, required_fields, missing_fields, length_utf16, accepted_transaction, reject_if,
  check_fields, validate_transaction,
}
use payment_sim.Risk.{evaluate_risk}
use payment_sim.Value.{undefined, get, set_prop, delete_prop, to_string, join_items, to_number}
use payment_sim.Prelude.{◌≡◌, refl, false, none, List, [], ◌∷◌, ◌++◌, arith, length, All}
use mathlib.Core.List.{Memᴰ}
use payment_sim.Value.Numbers.{unit}

abbrev submission : Action
submission = submit "client-1" purchase_request []

abbrev claiming : Action
claiming = claim_events 10 "publisher-1" none (λ e. false) [] 2000

abbrev submitted : System
submitted = perform small_host small_config submission empty_system

abbrev in_hand : List Event
in_hand = claimed_by claiming submitted ++ []

abbrev first_in_hand : List Event → Event
first_in_hand [] = new_event 0 "" undefined 0
first_in_hand (e ∷ es) = e

first_in_hand-Mem : (es : List Event) → length es ≡ 1 → Memᴰ (first_in_hand es) es
first_in_hand-Mem [] one = absurd (omega arith)
first_in_hand-Mem (e ∷ es) one = Memᴰ.head refl

-- The claim answers the event of the payment.
one_claimed : length in_hand ≡ 1
unfolding pay or_rollback begin query commit rollback ◌>>=◌ save_transaction_with_outbox
    create_request_hash canonicalize json_value json_quoted escaped json_members sort_value
    sort_items sort_fields insert_sorted key_le units units_le mask_sensitive_data mask_fields
    card_last4 only_digits digits_of last_four chars remove_sensitive_fields remove_fields
    remove_items is_dropped is_sensitive_key set_prop delete_prop get to_string join_items to_number
    validate_transaction check_fields missing_fields includes required_fields reject_if
    accepted_transaction length_utf16 evaluate_risk full_fields spread request_fields server_fields
    pin_verified accepted_entry sanitize_transaction_for_persistence sanitize_payload
    with_card_fields add_text card_fingerprint get_card_fingerprint_secret transaction_values
    parameter parameter_or_null row_of insert_row insert_transaction insert_event insert_event_row
    first_where save_response unit insert_outbox_event select_by_key is_conflict perform
    claim_in_transaction select_events pick_events autocommit update_where
one_claimed = refl

-- The publisher adds its job and marks it.
abbrev publication : Action
publication = publish (first_in_hand in_hand) Enqueue.added [] 3000

abbrev published : System
published =
    perform small_host small_config publication (perform small_host small_config claiming submitted)

sent-Queued_example :
    All
      (λ e. e.status ≡ sent → Queued e.txn_id (published.queue, published.completed))
      published.db.outbox_events
sent-Queued_example =
    sent-Queued small_host small_config
      (claimed_by publication (perform small_host small_config claiming submitted) ++ in_hand)
      published
      (goes_on publication (first_in_hand-Mem in_hand one_claimed)
        (goes_on claiming tt (goes_on submission tt begins)))
