-- ===== src/Store/Updates.antt =====
-- The other statements of store/store.js. Each is one UPDATE, INSERT or SELECT, run on its own, so
-- it is a function on the tables; a statement that fails leaves them as they were.
pub mod Lifecycle
pub mod Exclusion
use payment_sim.Store.Sql.{Sql, lift, autocommit, ◌>>=◌, ◌>>◌}
use payment_sim.Store.Tables.{
  Status, accepted, processing, Row, DeadLetter, Db, update_where, first_where, returned, coalesce,
  coalesce?, is_some, equals?, is_accepted, is_processing,
}
use payment_sim.Store.Save.Statements.{parameter_or_null, has_id}
use payment_sim.Value.{Value, obj, Items, end, Host, or_value, prop, str}
use payment_sim.Sensitive.{sanitize_payload}
use payment_sim.Prelude.{
  ℕ, ◌+◌, String, Bool, true, false, not, ◌&&◌, Option, none, some, List, [], ◌∷◌, ◌++◌, map, ◌==◌,
  ltb, if◌then◌else◌, select, Result, ok,
}
use payment_sim.Redact.{sanitize_text}

-- The fields that a caller gives. A missing text is `none`.
pub record Updates : Type 0 where
  pub status : Option Status
  pub retry_count : Option Value
  pub worker_id : Option ℕ
  pub route : Option String
  pub reason : Option String
  pub result : Option Value
  pub processing_timeline : Option Items
  pub clear_processing : Bool
  pub processing_started_at : Option ℕ
  pub processor_instance_id : Option String

abbrev pub no_updates : Updates
no_updates = record {
  status = none;
  retry_count = none;
  worker_id = none;
  route = none;
  reason = none;
  result = none;
  processing_timeline = none;
  clear_processing = false;
  processing_started_at = none;
  processor_instance_id = none;
}

-- `text || null`
abbrev pub non_empty : Option String → Option String
non_empty none = none
non_empty (some s) = if s == "" then none else some s

-- `CASE WHEN clear THEN NULL ELSE COALESCE(new, old) END`
abbrev pub clear_or {ℓ} : {A : Type ℓ} → Bool → Option A → Option A → Option A
clear_or true new old = none
clear_or false new old = coalesce? new old

-- the SET clause of `updateTransaction`
unfoldable pub apply_updates : Updates → ℕ → Row → Row
apply_updates u now r = record r {
  status = coalesce u.status r.status;
  retry_count = coalesce u.retry_count r.retry_count;
  worker_id = coalesce? u.worker_id r.worker_id;
  route = coalesce? (non_empty u.route) r.route;
  reason = coalesce? (non_empty u.reason) r.reason;
  result = coalesce? u.result r.result;
  processing_timeline = coalesce u.processing_timeline r.processing_timeline;
  processing_started_at =
      clear_or u.clear_processing u.processing_started_at r.processing_started_at;
  processor_instance_id =
      clear_or u.clear_processing u.processor_instance_id r.processor_instance_id;
  last_heartbeat_at = clear_or u.clear_processing none r.last_heartbeat_at;
  lease_expires_at = clear_or u.clear_processing none r.lease_expires_at;
  updated_at = now;
}

-- UPDATE transactions SET f WHERE p RETURNING *, the first row that it returns
unfoldable pub update_transactions : (Row → Bool) → (Row → Row) → Db → Option Row × Db
update_transactions p f db =
    (returned p f db.transactions, record db { transactions = update_where p f db.transactions })

unfoldable pub update_transaction : String → Updates → ℕ → Db → Option Row × Db
unfolding update_transactions
update_transaction id u now db = update_transactions (has_id id) (apply_updates u now) db

-- WHERE txn_id = $1 AND status = 'ACCEPTED'
abbrev pub claimable : String → Row → Bool
claimable id r = has_id id r && is_accepted r.status

-- the SET clause of `startTransactionProcessing`
unfoldable pub claimed : String → Option Items → ℕ → ℕ → Row → Row
claimed instance_id timeline lease_ms now r = record r {
  status = processing;
  processor_instance_id = some instance_id;
  processing_started_at = some now;
  processing_timeline = coalesce timeline r.processing_timeline;
  last_heartbeat_at = some now;
  lease_expires_at = some (now + lease_ms);
  updated_at = now;
}

unfoldable pub start_transaction_processing :
    String → String → Option Items → ℕ → ℕ → Db → Option Row × Db
unfolding update_transactions
start_transaction_processing id instance_id timeline lease_ms now db =
    update_transactions (claimable id) (claimed instance_id timeline lease_ms now) db

-- WHERE txn_id = $1 AND status = 'PROCESSING' AND processor_instance_id = $2
abbrev pub held_by : String → String → Row → Bool
held_by id instance_id r =
    has_id id r && is_processing r.status && equals? r.processor_instance_id instance_id

unfoldable pub renewed : ℕ → ℕ → Row → Row
renewed lease_ms now r = record r {
  last_heartbeat_at = some now;
  lease_expires_at = some (now + lease_ms);
  updated_at = now;
}

unfoldable pub renew_transaction_processing_lease : String → String → ℕ → ℕ → Db → Option Row × Db
unfolding update_transactions
renew_transaction_processing_lease id instance_id lease_ms now db =
    update_transactions (held_by id instance_id) (renewed lease_ms now) db

-- the SET clause of `finalizeTransactionProcessing`
unfoldable pub finalized : Updates → ℕ → Row → Row
finalized u now r = record r {
  status = coalesce u.status r.status;
  retry_count = coalesce u.retry_count r.retry_count;
  worker_id = coalesce? u.worker_id r.worker_id;
  route = coalesce? (non_empty u.route) r.route;
  reason = coalesce? (non_empty u.reason) r.reason;
  result = coalesce? u.result r.result;
  processing_timeline = coalesce u.processing_timeline r.processing_timeline;
  processing_started_at = none;
  processor_instance_id = none;
  last_heartbeat_at = none;
  lease_expires_at = none;
  updated_at = now;
}

unfoldable pub finalize_transaction_processing :
    String → String → Updates → ℕ → Db → Option Row × Db
unfolding update_transactions
finalize_transaction_processing id instance_id u now db =
    update_transactions (held_by id instance_id) (finalized u now) db

-- `COALESCE(lease_expires_at, processing_started_at + timeout) < CURRENT_TIMESTAMP`; a comparison
-- with NULL does not hold.
abbrev pub expired : ℕ → ℕ → Row → Bool
expired timeout now r = elim r.lease_expires_at [
  | some t ↦ ltb t now
  | none ↦ elim r.processing_started_at [ none ↦ false | some t ↦ ltb (t + timeout) now ]
]

abbrev pub stale : ℕ → ℕ → Row → Bool
stale timeout now r = is_processing r.status && expired timeout now r

unfoldable pub recovered : ℕ → Row → Row
recovered now r = record r {
  status = accepted;
  reason = some "Recovered stale PROCESSING transaction";
  processing_started_at = none;
  processor_instance_id = none;
  last_heartbeat_at = none;
  lease_expires_at = none;
  updated_at = now;
}

-- The rows that a recovery returns: the id, and who held the transaction before.
unfoldable pub recover_stale_processing_transactions :
    ℕ → ℕ → Db → List (String × Option String) × Db
recover_stale_processing_transactions timeout now db = (
  map (λ r. (r.txn_id, r.processor_instance_id)) (select (stale timeout now) db.transactions),
  record db { transactions = update_where (stale timeout now) (recovered now) db.transactions },
)

unfoldable pub get_transaction : String → Db → Option Row
get_transaction id db = first_where (has_id id) db.transactions

-- A BullMQ job, as the failure handler reads it.
pub record Job : Type 0 where
  pub id : String
  pub payload : Value
  pub queue_name : String
  pub attempts_made : ℕ
  pub max_attempts : Option ℕ

abbrev pub for_job : String → DeadLetter → Bool
for_job id d = d.job_id == id

-- `job.data || {}`
abbrev pub payload_of : Job → Value
payload_of job = or_value job.payload (obj end)

-- INSERT INTO dead_letter_jobs ... ON CONFLICT (job_id) DO UPDATE, on the sanitized payload
unfoldable pub upsert_dead_letter : Host → Job → Value → String → ℕ → Db → Db
upsert_dead_letter h job txn reason now db =
    let d : DeadLetter = record {
      job_id = job.id;
      txn_id = parameter_or_null h (prop "id" txn);
      queue_name = job.queue_name;
      payload = txn;
      failed_reason = reason;
      attempts_made = job.attempts_made;
      failed_at = now;
    } in
    if is_some (first_where (for_job job.id) db.dead_letter_jobs)
    then record db {
      dead_letter_jobs =
          update_where (for_job job.id)
            (λ old. record old {
              failed_reason = reason;
              attempts_made = job.attempts_made;
              payload = txn;
              failed_at = now;
            })
            db.dead_letter_jobs;
    }
    else record db { dead_letter_jobs = db.dead_letter_jobs ++ d ∷ [] }

-- `saveDeadLetterJob`, with the message of the error
unfoldable pub save_dead_letter_job : Host → Job → String → ℕ → Sql (Unit {0})
save_dead_letter_job h job message now = do
  txn ← lift (sanitize_payload h (payload_of job))
  autocommit (λ db. ok (tt, upsert_dead_letter h job txn (sanitize_text h (str message)) now db))
