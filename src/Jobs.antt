-- ===== src/Jobs.antt =====
-- jobs/transactionJobHandler.js. Each database call of the job handler is a definition of its own,
-- since other processes run between them; `handle_transaction_job` composes them, with what the
-- others do to the tables in between.
pub mod Failures
pub mod Failing
pub mod Outcome
pub mod Handler
use Prim.Native.String
use payment_sim.Value.{field, end, Value, str, num, obj, Items, cons, nil, Host, prop}
use payment_sim.Config.{Config, setting}
use payment_sim.Systems.{
  Route, internal, external_processor, card_network, external, unknown, route_transaction,
  Processed, approved, declined, failed, process_transaction, Reply, success, balance,
  dispatch_route,
}
use payment_sim.Sensitive.{sanitize_payload}
use payment_sim.Store.Tables.{
  Status, accepted, processing, completed, other, Row, Db, is_some, is_accepted,
}
use payment_sim.Store.Save.Statements.{parameter}
use payment_sim.Store.Updates.{
  Updates, no_updates, start_transaction_processing, renew_transaction_processing_lease,
  finalize_transaction_processing, get_transaction,
}
use payment_sim.Prelude.{
  ℕ, String, Bool, true, false, not, Option, none, some, if◌then◌else◌, Result, throw, ok,
}

abbrev pub is_final : Status → Bool
is_final completed = true
is_final Status.declined = true
is_final Status.failed = true
is_final _ = false

-- What a job ends with: the handler's return value, or the error that it throws.
pub data JobResult : Type 0 where
  skipped : (reason : String) → JobResult
  done : Status → JobResult

abbrev pub default_lease_ms : Host → ℕ
default_lease_ms h = setting h "TRANSACTION_PROCESSING_LEASE_MS" 120000

unfoldable pub status_text : Status → String
status_text accepted = "ACCEPTED"
status_text Status.processing = "PROCESSING"
status_text completed = "COMPLETED"
status_text Status.declined = "DECLINED"
status_text Status.failed = "FAILED"
status_text (other s) = s

abbrev append_items : Items → Items → Items
append_items nil ys = ys
append_items (cons x xs) ys = cons x (append_items xs ys)

-- `[...timeline, { status, timestamp, message }]`
unfoldable pub append_timeline : Items → String → String → String → Items
append_timeline timeline status timestamp message = append_items timeline (
    cons
      (obj (
        field "status" (str status)
          (field "timestamp" (str timestamp) (field "message" (str message) end))))
      nil)

-- The first look at the transaction: end at once, or go on to claim it with a longer timeline.
pub data Look : Type 0 where
  stop : JobResult → Look
  claim : Items → Look

unfoldable pub look : String → String → Option Row → Result Look
look id timestamp none = throw (String.◌++◌ "Transaction not found: " id)
look id timestamp (some r) =
    if is_final r.status
    then ok (stop (skipped "Transaction already finalized"))
    else if not (is_accepted r.status)
    then ok (stop (skipped (String.◌++◌ "Transaction is " (status_text r.status))))
    else ok (
        claim (
          append_timeline r.processing_timeline "PROCESSING" timestamp
            "BullMQ worker started processing"))

-- `startTransactionProcessing`, and what its answer means.
unfoldable pub claim_transaction : String → String → Items → ℕ → ℕ → Db → Bool × Db
claim_transaction id worker timeline lease_ms now db =
    let (claimed_row, db') =
      start_transaction_processing id worker (some timeline) lease_ms now db in
    (is_some claimed_row, db')

-- One round of the heartbeat: whether the lease is still held.
unfoldable pub heartbeat : String → String → ℕ → ℕ → Db → Bool × Db
heartbeat id worker lease_ms now db =
    let (renewed_row, db') = renew_transaction_processing_lease id worker lease_ms now db in
    (is_some renewed_row, db')

abbrev pub route_text : Route → String
route_text internal = "INTERNAL"
route_text external_processor = "EXTERNAL_PROCESSOR"
route_text card_network = "CARD_NETWORK"
route_text external = "EXTERNAL"
route_text unknown = "UNKNOWN"

-- the object that a system returns
unfoldable pub reply_value : Reply → Value
reply_value Reply.approved = obj (field "status" (str "APPROVED") end)
reply_value (Reply.declined reason) =
    obj (field "status" (str "DECLINED") (field "reason" (str reason) end))
reply_value (success system details) = obj (
    field "status" (str "SUCCESS")
      (field "system" (str system) (field "details" (str details) end)))
reply_value (balance n) = obj (
    field "status" (str "SUCCESS")
      (field "system" (str "BALANCE_SYSTEM") (field "balance" (num n) end)))

-- What the processor and the routed system decide, and the updates that record it.
pub data Decision : Type 0 where
  fail : String → Decision
  finalize : Status → Updates → Decision

abbrev pub finalize_declined : Option String → String → Items → Decision
finalize_declined route reason timeline = finalize Status.declined (record no_updates {
  status = some Status.declined;
  route = route;
  reason = some reason;
  worker_id = some 1;
  processing_timeline = some timeline;
})

-- the end of `processClaimedTransaction`, by the routed system's reply
unfoldable pub conclude : String → Items → Route → Reply → Decision
conclude timestamp timeline route (Reply.declined reason) =
    finalize_declined (some (route_text route)) reason (
      append_timeline timeline "DECLINED" timestamp
        (String.◌++◌ "Transaction declined by routed system: " reason))
conclude timestamp timeline route reply = finalize completed (record no_updates {
  status = some completed;
  route = some (route_text route);
  result = some (reply_value reply);
  worker_id = some 1;
  processing_timeline = some (
      append_timeline
        (append_timeline timeline "PROCESSING" timestamp "BullMQ worker processed transaction")
        "COMPLETED" timestamp "Transaction processed successfully");
})

-- what follows `processTransaction`, up to the call of `finalizeTransactionProcessing`
unfoldable pub decide_processed : Host → Config → Value → String → Items → Processed → Decision
decide_processed h cfg txn timestamp timeline (Processed.failed reason) = fail reason
decide_processed h cfg txn timestamp timeline (Processed.declined reason) =
    finalize_declined none reason (
      append_timeline timeline "DECLINED" timestamp
        (String.◌++◌ "Transaction declined by processor: " reason))
decide_processed h cfg txn timestamp timeline Processed.approved =
    conclude timestamp timeline (route_transaction txn)
      (dispatch_route h cfg txn (route_transaction txn))

-- `processClaimedTransaction` up to the call of `finalizeTransactionProcessing`
unfoldable pub decide : Host → Config → Value → String → Items → Decision
unfolding decide_processed
decide h cfg txn timestamp timeline =
    decide_processed h cfg txn timestamp timeline (process_transaction h txn)

-- the call, and what its answer means
unfoldable pub carry_out : String → String → Decision → ℕ → Db → Result JobResult × Db
carry_out id worker (fail reason) now db = (throw reason, db)
carry_out id worker (finalize status u) now db =
    let (row, db') = finalize_transaction_processing id worker u now db in
    (ok (if is_some row then done status else skipped "Transaction finalization lost"), db')

-- `processClaimedTransaction`
unfoldable pub process_claimed_transaction :
    Host → Config → Value → String → String → String → Items → ℕ → Db → Result JobResult × Db
process_claimed_transaction h cfg txn id worker timestamp timeline now db =
    carry_out id worker (decide h cfg txn timestamp timeline) now db

-- what follows the claim
unfoldable pub after_claim :
    Host
    → Config
    → Value
    → String
    → String
    → String
    → Items
    → ℕ
    → (Db → Db)
    → Bool × Db
    → Result JobResult × Db
after_claim h cfg txn id worker timestamp timeline now others (false, db) =
    (ok (skipped "Transaction claim lost"), db)
after_claim h cfg txn id worker timestamp timeline now others (true, db) =
    process_claimed_transaction h cfg txn id worker timestamp timeline now (others db)

-- what follows the look at the transaction
unfoldable pub after_look :
    Host
    → Config
    → Value
    → String
    → String
    → String
    → ℕ
    → (Db → Db)
    → (Db → Db)
    → Result Look
    → Db
    → Result JobResult × Db
unfolding after_claim claim_transaction
after_look h cfg txn id worker timestamp now others others' (throw e) db = (throw e, db)
after_look h cfg txn id worker timestamp now others others' (ok (stop r)) db = (ok r, db)
after_look h cfg txn id worker timestamp now others others' (ok (Look.claim timeline)) db =
    after_claim h cfg txn id worker timestamp timeline now others'
      (claim_transaction id worker timeline (default_lease_ms h) now (others db))

-- A NULL id names no transaction.
abbrev with_id :
    Value → Option String → (String → Db → Result JobResult × Db) → Db → Result JobResult × Db
with_id txn none run db = (throw "Transaction not found: undefined", db)
with_id txn (some id) run db = run id db

abbrev with_payload :
    Result Value → (Value → Db → Result JobResult × Db) → Db → Result JobResult × Db
with_payload (throw e) run db = (throw e, db)
with_payload (ok txn) run db = run txn db

-- `handleTransactionJob`. `others` and `others'` are what the other processes do, and the heartbeats
-- of this one: between the look and the claim, and between the claim and the finalization.
unfoldable pub handle_transaction_job :
    Host → Config → Value → String → String → ℕ → (Db → Db) → (Db → Db) → Db → Result JobResult × Db
unfolding after_look look
handle_transaction_job h cfg job_data worker timestamp now others others' =
    with_payload (sanitize_payload h job_data) λ txn.
      with_id txn (parameter h (prop "id" txn)) λ id db.
        after_look h cfg txn id worker timestamp now others others'
          (look id timestamp (get_transaction id db)) db
