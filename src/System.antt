-- ===== src/System.antt =====
-- The processes together: the API server, the workers, the recovery job and the outbox publisher,
-- which share the database, as one step after another. Every statement of a process that runs on
-- its own is a step; any process may take the next step, with any data.
pub mod WellFormed
pub mod Invariant
pub mod Finality
pub mod Preserved
pub mod Delivery
pub mod Apart
pub mod Publishing
pub mod Delivered
pub mod Taken
use payment_sim.App.{Request, pay}
use payment_sim.Value.{Value, Items, Host}
use payment_sim.Config.{Config}
use payment_sim.Jobs.{claim_transaction, heartbeat, process_claimed_transaction}
use payment_sim.Jobs.Failures.{on_job_failed}
use payment_sim.Outbox.{recover_stale_outbox_events, QueuedJob, has_job, complete_job}
use payment_sim.Outbox.Publish.{Enqueue, publish_event, claim_in_transaction}
use payment_sim.Store.Tables.{Event, Db, is_some, first_where}
use payment_sim.Store.Sql.{Fault, Session, ◌>>=◌, ◌>>◌}
use payment_sim.Store.Updates.{recover_stale_processing_transactions, Job}
use payment_sim.Prelude.{ℕ, String, Bool, Option, List, [], if◌then◌else◌, ◌∷◌}

pub record System : Type 0 where
  pub db : Db
  pub queue : List QueuedJob
  -- the ids of the jobs that completed
  pub completed : List String

pub data Action : Type 0 where
  -- `POST /pay`, with the faults that its statements meet
  submit : (client_id : String) → Request → List Fault → Action
  -- `startTransactionProcessing` of a worker
  claim : (id worker : String) → Items → (lease_ms now : ℕ) → Action
  -- a lease heartbeat
  beat : (id worker : String) → (lease_ms now : ℕ) → Action
  -- `processClaimedTransaction`, whoever holds the claim
  process : (txn : Value) → (id worker timestamp : String) → Items → (now : ℕ) → Action
  -- `recoverStaleProcessingTransactions`
  recover : (timeout now : ℕ) → Action
  -- the `failed` event of the queue, with the faults of its queries
  job_failed : Job → (reason : String) → List Fault → (now : ℕ) → Action
  -- a job of the queue completes
  job_completed : (id : String) → Action
  recover_events : (timeout max_recoveries : ℕ) → Option (List String) → (now : ℕ) → Action
  claim_events :
      (limit : ℕ)
      → (processor : String) → Option (List String)
      → (Event → Bool)
      → List Fault
      → (now : ℕ) → Action
  -- one event of the publisher's loop, with what the queue answers and the faults of its statements
  publish : Event → Enqueue → List Fault → (now : ℕ) → Action

abbrev pub with_db : System → Db → System
with_db s db = record s { db = db }

abbrev pub session_on : Db → List Fault → Session
session_on db faults = record { committed = db; working = db; faults = faults }

unfoldable pub perform : Host → Config → Action → System → System
perform h cfg (submit client_id req faults) s =
    with_db s (pay h cfg client_id req (session_on s.db faults)).1.committed
perform h cfg (claim id worker timeline lease_ms now) s =
    with_db s (claim_transaction id worker timeline lease_ms now s.db).1
perform h cfg (beat id worker lease_ms now) s = with_db s (heartbeat id worker lease_ms now s.db).1
perform h cfg (process txn id worker timestamp timeline now) s =
    with_db s (process_claimed_transaction h cfg txn id worker timestamp timeline now s.db).1
perform h cfg (recover timeout now) s =
    with_db s (recover_stale_processing_transactions timeout now s.db).1
perform h cfg (job_failed job reason faults now) s =
    with_db s (on_job_failed h job reason now (session_on s.db faults)).1.committed
perform h cfg (job_completed id) s =
    if is_some (first_where (has_job id) s.queue)
    then record s { queue = complete_job id s.queue; completed = id ∷ s.completed }
    else s
perform h cfg (recover_events timeout max_recoveries ids now) s =
    with_db s (recover_stale_outbox_events timeout max_recoveries ids now s.db).1
perform h cfg (claim_events limit processor ids locked faults now) s =
    with_db s
      (claim_in_transaction limit processor ids locked now (session_on s.db faults)).1.committed
perform h cfg (publish e outcome faults now) s =
    let (_, (queue, s')) = publish_event h e outcome now (s.queue, session_on s.db faults) in
    record s { db = s'.committed; queue = queue }

abbrev pub empty_system : System
empty_system = record {
  db = record { transactions = []; outbox_events = []; dead_letter_jobs = []; next_event_id = 1 };
  queue = [];
  completed = [];
}

-- The states that the processes can reach from empty tables.
pub data Reachable (h : Host) (cfg : Config) : System → Type 0 where
  initial : Reachable h cfg empty_system
  later : {s : System} (a : Action) → Reachable h cfg s → Reachable h cfg (perform h cfg a s)
