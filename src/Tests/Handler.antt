-- ===== src/Tests/Handler.antt =====
-- A job from its start to its end.
use payment_sim.Tests.Samples.{small_host, small_config, db_with}
use payment_sim.Value.{field, end, Value, str, num, bool, obj, get, to_string, to_number}
use payment_sim.Value.Numbers.{unit, of_ℕ}
use payment_sim.Jobs.{
  JobResult, done, look, claim_transaction, conclude, decide_processed, decide, carry_out,
  process_claimed_transaction, after_claim, after_look, handle_transaction_job,
}
use payment_sim.Jobs.Handler.{Any, IsFinalized, job_done}
use payment_sim.Systems.{
  route_transaction, process_transaction, validate_pin, validate_balance, handle_internal,
  dispatch_route,
}
use payment_sim.Sensitive.{
  digits_of, only_digits, card_last4, card_fingerprint, is_sensitive_key, is_dropped,
  remove_sensitive_fields, remove_fields, add_text, with_card_fields,
  sanitize_transaction_for_persistence, sanitize_payload,
}
use payment_sim.Store.Tables.{Status, accepted, completed, Db, update_where, first_where, returned}
use payment_sim.Store.Save.Statements.{parameter}
use payment_sim.Store.Updates.{
  update_transactions, claimed, start_transaction_processing, finalized,
  finalize_transaction_processing, get_transaction,
}
use payment_sim.Prelude.{◌≡◌, refl, ◌⊎◌, true, Result, ok}

abbrev job_data : Value
job_data = obj (
    field "id" (str "txn-1") (
      field "amount" (num (of_ℕ 120)) (
        field "type" (str "PURCHASE")
          (field "issuerType" (str "INTERNAL") (field "pinVerified" (bool true) end)))))

abbrev undisturbed : Db → Db
undisturbed db = db

abbrev job_run : Result JobResult × Db
job_run =
    handle_transaction_job small_host small_config job_data "alpha" "now" 2000 undisturbed
      undisturbed (db_with accepted)

completes_purchase : job_run.0 ≡ ok (done completed)
unfolding handle_transaction_job after_look after_claim look claim_transaction
    process_claimed_transaction decide decide_processed conclude carry_out process_transaction
    route_transaction dispatch_route handle_internal validate_pin validate_balance
    start_transaction_processing finalize_transaction_processing update_transactions update_where
    first_where returned claimed finalized get_transaction sanitize_payload
    sanitize_transaction_for_persistence card_fingerprint only_digits digits_of with_card_fields
    add_text card_last4 remove_fields remove_sensitive_fields is_dropped is_sensitive_key get
    parameter unit to_number to_string
completes_purchase = refl

job_done_example :
    ((completed ≡ completed) ⊎ (completed ≡ Status.declined))
    × Any (IsFinalized "txn-1" completed) job_run.1.transactions
unfolding sanitize_payload sanitize_transaction_for_persistence card_fingerprint only_digits
    with_card_fields add_text card_last4 remove_fields remove_sensitive_fields is_dropped
    is_sensitive_key get parameter
job_done_example =
    job_done small_host small_config job_data job_data "txn-1" "alpha" "now" 2000 undisturbed
      undisturbed (db_with accepted) completed refl refl completes_purchase
