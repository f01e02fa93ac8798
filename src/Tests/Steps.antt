-- ===== src/Tests/Steps.antt =====
-- The steps of the processes on small tables.
use payment_sim.Tests.Samples.{
  small_host, small_config, purchase, purchase_request, empty_db, sample_row, db_with, Differ,
}
use payment_sim.Value.{field, end, Value, str, num, obj, nil, get, prop}
use payment_sim.Value.Numbers.{of_ℕ}
use payment_sim.Jobs.{decide}
use payment_sim.Jobs.Failures.{on_job_failed}
use payment_sim.Jobs.Outcome.{IsConclusive, completes, fails, decide_outcome}
use payment_sim.Systems.Outcome.{has_amount, has_failing_amount, is_served}
use payment_sim.Outbox.{pick_events, id_among, claim_outbox_events}
use payment_sim.Outbox.Claims.{claims_disjoint, abandoned, gives_up}
use payment_sim.RateLimiter.{Counters}
use payment_sim.RateLimiter.Window.{let_through_count, window_bound}
use payment_sim.System.Taken.{claim_once, perform_all}
use payment_sim.System.{
  System, Action, submit, recover, perform, empty_system, initial, later, session_on,
}
use payment_sim.System.WellFormed.{WellFormed}
use payment_sim.System.Invariant.{Reachable-WellFormed}
use payment_sim.System.Finality.{final_kept, failed_event_reopens}
use payment_sim.Store.Tables.{
  accepted, completed, Row, pending, outbox_failed, Event, Db, update_where, first_where, returned,
}
use payment_sim.Store.Save.{save_transaction_with_outbox, SaveResult}
use payment_sim.Store.Save.Idempotency.{on, save_duplicate, column}
use payment_sim.Store.Save.Statements.{
  parameter, parameter_or_null, row_of, transaction_values, new_event,
}
use payment_sim.Store.Updates.{
  no_updates, update_transactions, claimed, start_transaction_processing,
  finalize_transaction_processing, get_transaction, Job,
}
use payment_sim.Store.Updates.Exclusion.{finalize_by_other}
use payment_sim.Sensitive.{
  only_digits, card_last4, card_fingerprint, is_sensitive_key, is_dropped, remove_sensitive_fields,
  remove_fields, add_text, with_card_fields, sanitize_transaction_for_persistence,
}
use payment_sim.Prelude.{
  ◌+◌, ◌≤◌, ◌<◌, ◌≡◌, refl, ◌↔◌, false, not, ◌&&◌, Option, none, some, [], ◌∷◌, arith, length, All,
  ok, true, ◌≢◌, All, All, All, All, All, All, All, All, All, All, All, All,
}

abbrev two_steps : System
two_steps =
    perform small_host small_config (Action.claim "txn-1" "alpha" nil 60000 2000)
      (perform small_host small_config (submit "client-1" purchase_request []) empty_system)

Reachable-WellFormed_example : WellFormed two_steps.db
Reachable-WellFormed_example =
    Reachable-WellFormed small_host small_config two_steps (λ t. refl)
      (later (Action.claim "txn-1" "alpha" nil 60000 2000)
        (later (submit "client-1" purchase_request []) initial))

claimed_db : Option Row × Db
claimed_db = start_transaction_processing "txn-1" "alpha" none 60000 2000 (db_with accepted)

abbrev waiting_system : System
waiting_system = record { db = db_with accepted; queue = []; completed = [] }

other_worker : Differ "alpha" "beta"
other_worker e = cc

abbrev claimed_row : Row
claimed_row = claimed "alpha" none 60000 2000 (sample_row accepted)

-- Another worker tries to renew the lease in between.
claim_once_example :
    let s' =
      perform_all small_host small_config
        (Action.beat "txn-1" "beta" 60000 2000 ∷ [])
        (record waiting_system { db = claimed_db.1 }) in
    start_transaction_processing "txn-1" "beta" none 60000 2001 s'.db ≡ (none, s'.db)
unfolding claimed_db start_transaction_processing update_transactions returned first_where
claim_once_example =
    claim_once small_host small_config "txn-1" "alpha" "beta" none none 60000 60000 2000 2001
      waiting_system claimed_row (Action.beat "txn-1" "beta" 60000 2000 ∷ []) refl (refl, tt)

finalize_by_other_example :
    finalize_transaction_processing "txn-1" "beta" no_updates 3000 claimed_db.1
    ≡ (none, claimed_db.1)
unfolding claimed_db start_transaction_processing update_transactions returned update_where
    first_where
finalize_by_other_example =
    finalize_by_other "txn-1" "alpha" "beta" none 60000 2000 3000 no_updates (db_with accepted)
      claimed_db.1 claimed_row (tt, tt) refl other_worker

abbrev completed_system : System
completed_system = record { db = db_with completed; queue = []; completed = [] }

final_kept_example :
    get_transaction "txn-1"
      (perform small_host small_config (recover 60000 999999) completed_system).db
    ≡ some (sample_row completed)
unfolding get_transaction first_where
final_kept_example =
    final_kept "txn-1" (sample_row completed) refl small_host small_config (recover 60000 999999)
      completed_system refl refl

abbrev late_job : Job
late_job = record {
  id = "txn-1";
  payload = obj (field "id" (str "txn-1") end);
  queue_name = "transactions";
  attempts_made = 1;
  max_attempts = some 3;
}

failed_event_reopens_example :
    (r : Row) × (get_transaction "txn-1"
        (on_job_failed small_host late_job "stalled" 5000
          (session_on (db_with completed) [])).1.committed
      ≡ some r)
    × (r.status ≡ accepted)
    × (r.processor_instance_id ≡ none)
    × (r.lease_expires_at ≡ none)
unfolding get_transaction first_where get
failed_event_reopens_example =
    failed_event_reopens small_host late_job "stalled" 5000 (db_with completed)
      (sample_row completed) refl (omega arith) refl

decide_outcome_example :
    let d = decide small_host small_config (obj purchase) "now" nil in
    (fails d ≡ (has_amount small_host (obj purchase) && has_failing_amount (obj purchase)))
    × (completes d ≡ (
        has_amount small_host (obj purchase)
        && not (has_failing_amount (obj purchase))
        && is_served small_host small_config (obj purchase)))
    × IsConclusive d
decide_outcome_example = decide_outcome small_host small_config (obj purchase) "now" nil

abbrev saved_again : Value
saved_again = obj (
    field "id" (str "txn-1") (
      field "amount" (num (of_ℕ 120)) (
        field "channel" (str "DOMESTIC_POS")
          (field "idempotencyKey" (str "key-1") (field "requestHash" (str "digest") end)))))

save_duplicate_example :
    (x : SaveResult) × (save_transaction_with_outbox small_host saved_again 3000
        (on (db_with completed))
      ≡ (ok x, on (db_with completed)))
    × (x.inserted ≡ false)
    × (x.transaction ≡ some (sample_row completed))
    × ((x.conflict ≡ true)
        ↔ (prop "requestHash" saved_again ≢ column (sample_row completed).request_hash))
unfolding sanitize_transaction_for_persistence card_fingerprint only_digits with_card_fields
    add_text card_last4 remove_fields remove_sensitive_fields is_dropped is_sensitive_key get
    transaction_values parameter parameter_or_null row_of first_where
save_duplicate_example =
    save_duplicate small_host saved_again saved_again 3000 (db_with completed)
      (row_of small_host saved_again 3000 "txn-1" "DOMESTIC_POS") (sample_row completed) refl refl
      refl refl

abbrev waiting_event : Event
waiting_event = new_event 1 "txn-1" (obj end) 1000

abbrev outbox_db : Db
outbox_db = record empty_db { outbox_events = waiting_event ∷ [] }

claims_disjoint_example :
    let (claimed, db') = claim_outbox_events 10 "publisher-1" none (λ e. false) 2000 outbox_db in
    All (λ e. id_among claimed e ≡ false) (pick_events 10 none (λ e. false) db')
    × (length claimed ≤ 10)
    × All (λ e. (e.status ≡ pending) × (false ≡ false)) claimed
claims_disjoint_example =
    claims_disjoint 10 "publisher-1" none (λ e. false) 2000 10 none (λ e. false) outbox_db

abbrev no_counters : Counters
no_counters ip = none

window_bound_example :
    let_through_count 60000 2 "alice"
      (("alice", 0) ∷ ("bob", 5) ∷ ("alice", 20) ∷ ("alice", 30) ∷ [])
      no_counters
    ≤ 2
window_bound_example =
    window_bound 60000 2 "alice" 0 (("bob", 5) ∷ ("alice", 20) ∷ ("alice", 30) ∷ []) no_counters
      refl ((λ _. omega arith), ((λ _. omega arith), ((λ _. omega arith), tt)))

gives_up_example :
    let e =
      abandoned 3
        ((("publisher-1", 1000), 70000) ∷ (("publisher-2", 71000), 140000) ∷ [])
        waiting_event in
    ((e.status ≡ outbox_failed) ↔ (3 ≤ waiting_event.recovery_count + 2))
    × ((e.status ≡ pending) ↔ (waiting_event.recovery_count + 2 < 3))
gives_up_example =
    gives_up 3 ("publisher-1", 1000) 70000 ((("publisher-2", 71000), 140000) ∷ []) waiting_event
