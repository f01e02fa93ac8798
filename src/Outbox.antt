-- ===== src/Outbox.antt =====
-- outbox/outboxProcessor.js
pub mod Publish
pub mod Rounds
pub mod Taken
pub mod Rows
pub mod Interval
pub mod Drain
pub mod Claims
pub mod Steady
use payment_sim.Config.{setting}
use payment_sim.Value.{Value, Host}
use payment_sim.Store.Tables.{
  failed, processing, EventStatus, pending, sent, outbox_failed, Event, Db, update_where,
  first_where, is_some,
}
use payment_sim.Prelude.{
  ℕ, ◌+◌, String, Bool, true, false, not, ◌&&◌, Option, none, some, List, [], ◌∷◌, ◌++◌, map, ◌==◌,
  ltb, leb, eqb, if◌then◌else◌, take, any, select,
}

-- `$3::text[] IS NULL OR txn_id = ANY($3)`
abbrev pub eligible : Option (List String) → Event → Bool
eligible none e = true
eligible (some ids) e = any (λ id. id == e.txn_id) ids

abbrev pub is_pending : EventStatus → Bool
is_pending pending = true
is_pending _ = false

abbrev pub in_process : EventStatus → Bool
in_process EventStatus.processing = true
in_process _ = false

-- `claimed_at < CURRENT_TIMESTAMP - timeout`; `claimed_at + timeout < now` says the same without a
-- negative number, and a comparison with NULL does not hold.
abbrev pub claim_expired : ℕ → ℕ → Event → Bool
claim_expired timeout now e = elim e.claimed_at [ none ↦ false | some t ↦ ltb (t + timeout) now ]

abbrev pub stale_event : ℕ → Option (List String) → ℕ → Event → Bool
stale_event timeout ids now e = in_process e.status && claim_expired timeout now e && eligible ids e

-- the SET clause of `recoverStaleOutboxEvents`
unfoldable pub recovered_event : ℕ → ℕ → Event → Event
recovered_event max_recoveries now e =
    let exhausted = leb max_recoveries (e.recovery_count + 1) in
    record e {
      status = if exhausted then outbox_failed else pending;
      claimed_at = none;
      locked_by = none;
      recovery_count = e.recovery_count + 1;
      last_error =
          if exhausted then some "Outbox event exceeded max stale recoveries" else e.last_error;
      updated_at = now;
    }

unfoldable pub recover_stale_outbox_events : ℕ → ℕ → Option (List String) → ℕ → Db → List Event × Db
recover_stale_outbox_events timeout max_recoveries ids now db = (
  map (recovered_event max_recoveries now) (select (stale_event timeout ids now) db.outbox_events),
  record db {
    outbox_events =
        update_where (stale_event timeout ids now) (recovered_event max_recoveries now)
          db.outbox_events;
  },
)

abbrev pub claimable_event : Option (List String) → (Event → Bool) → Event → Bool
claimable_event ids locked e = is_pending e.status && eligible ids e && not (locked e)

-- SELECT ... ORDER BY id LIMIT $1 FOR UPDATE SKIP LOCKED. The table is kept in the order of ids;
-- `locked` says which rows another connection holds.
unfoldable pub pick_events : ℕ → Option (List String) → (Event → Bool) → Db → List Event
pick_events limit ids locked db = take limit (select (claimable_event ids locked) db.outbox_events)

abbrev pub has_event_id : ℕ → Event → Bool
has_event_id id e = eqb e.id id

-- `id = ANY($1)`
abbrev pub id_among : List Event → Event → Bool
id_among picked e = any (λ p. has_event_id p.id e) picked

unfoldable pub claimed_event : String → ℕ → Event → Event
claimed_event processor now e = record e {
  status = EventStatus.processing;
  claimed_at = some now;
  locked_by = some processor;
  claim_count = e.claim_count + 1;
  updated_at = now;
}

-- `claimOutboxEvents`, one transaction that commits; with no event picked the UPDATE is skipped
unfoldable pub claim_outbox_events :
    ℕ → String → Option (List String) → (Event → Bool) → ℕ → Db → List Event × Db
claim_outbox_events limit processor ids locked now db =
    let picked = pick_events limit ids locked db in
    (
      picked,
      record db {
        outbox_events =
            update_where (id_among picked) (claimed_event processor now) db.outbox_events;
      },
    )

unfoldable pub sent_event : ℕ → Event → Event
sent_event now e = record e {
  status = sent;
  attempts = e.attempts + 1;
  claimed_at = none;
  locked_by = none;
  updated_at = now;
}

unfoldable pub returned_event : String → ℕ → Event → Event
returned_event error now e = record e {
  status = pending;
  attempts = e.attempts + 1;
  claimed_at = none;
  locked_by = none;
  last_error = some error;
  updated_at = now;
}

-- the options of `add`
pub record JobOptions : Type 0 where
  pub attempts : ℕ
  pub backoff_type : String
  pub backoff_delay : ℕ
  pub remove_on_complete : Bool
  pub remove_on_fail : Bool

abbrev pub job_options : JobOptions
job_options = record {
  attempts = 3;
  backoff_type = "exponential";
  backoff_delay = 1000;
  remove_on_complete = true;
  remove_on_fail = false;
}

pub record QueuedJob : Type 0 where
  pub name : String
  pub job_id : String
  pub payload : Value
  pub options : JobOptions

abbrev pub has_job : String → QueuedJob → Bool
has_job id j = j.job_id == id

-- `transactionQueue.add`: BullMQ ignores a job whose id it has. The queue is what it holds.
unfoldable pub add_job : Event → List QueuedJob → List QueuedJob
unfolding first_where
add_job e queue =
    if is_some (first_where (has_job e.txn_id) queue)
    then queue
    else queue
      ++ record {
        name = "process-transaction";
        job_id = e.txn_id;
        payload = e.payload;
        options = job_options;
      }
        ∷ []

-- A job that completes leaves the queue, by its option.
abbrev pub leaves : String → QueuedJob → Bool
leaves id j = has_job id j && j.options.remove_on_complete

unfoldable pub complete_job : String → List QueuedJob → List QueuedJob
complete_job id queue = select (λ j. not (leaves id j)) queue

abbrev pub default_stale_timeout_ms : Host → ℕ
default_stale_timeout_ms h = setting h "OUTBOX_STALE_TIMEOUT_MS" 60000

abbrev pub default_max_recoveries : Host → ℕ
default_max_recoveries h = setting h "OUTBOX_MAX_RECOVERIES" 3
