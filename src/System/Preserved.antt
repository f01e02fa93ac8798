-- ===== src/System/Preserved.antt =====
-- The statements of the processes keep the tables well-formed.
use payment_sim.Jobs.Failing.{on_job_failed-rule}
use payment_sim.System.{session_on}
use payment_sim.Store.Sql.{Fault}
use payment_sim.System.WellFormed.{
  WellFormed, update-WellFormed, events-WellFormed, dead_letters-WellFormed,
}
use payment_sim.Jobs.{
  claim_transaction, Decision, fail, finalize, decide, carry_out, process_claimed_transaction,
  heartbeat,
}
use payment_sim.Jobs.Failures.{failure_updates, on_job_failed, update_failed}
use payment_sim.Jobs.Outcome.{IsConclusive, decide-IsConclusive}
use payment_sim.Outbox.{
  stale_event, recovered_event, recover_stale_outbox_events, pick_events, has_event_id, id_among,
  claimed_event, claim_outbox_events, sent_event, returned_event, QueuedJob,
}
use payment_sim.Store.Tables.{Status, Event, Db, first_where, is_some, is_processing}
use payment_sim.Store.Updates.{
  apply_updates, update_transactions, update_transaction, claimable, claimed,
  start_transaction_processing, held_by, renewed, renew_transaction_processing_lease, finalized,
  finalize_transaction_processing, stale, recovered, recover_stale_processing_transactions, Job,
  for_job, upsert_dead_letter,
}
use payment_sim.Store.Updates.Lifecycle.{
  claimed-IsLeased, renewed-IsLeased, finalized-IsLeased, recovered-IsLeased,
  apply_updates-IsLeased,
}
use payment_sim.Store.Save.Statements.{has_id}
use payment_sim.Value.{Value, str, Items, Host, prop}
use payment_sim.Config.{Config}
use payment_sim.Outbox.Publish.{Enqueue, publish_event, claim_in_transaction}
use payment_sim.Outbox.Rounds.{publish_event-rule, claim_in_transaction-rule}
use payment_sim.Redact.{sanitize_text}
use payment_sim.Prelude.{
  ℕ, String, ◌≡◌, refl, inl, inr, Bool, false, Option, some, List, arith, Bool-cases,
}

pub claim-WellFormed :
    (id worker : String) (timeline : Items) (lease_ms now : ℕ) (db : Db)
    → WellFormed db
    → WellFormed (claim_transaction id worker timeline lease_ms now db).1
unfolding claim_transaction start_transaction_processing update_transactions
claim-WellFormed id worker timeline lease_ms now db w =
    unfold claimed in
    update-WellFormed (claimable id) (claimed worker (some timeline) lease_ms now) db (λ r. refl)
      (λ r. refl) (λ r _ _. claimed-IsLeased worker (some timeline) lease_ms now r) w

pub beat-WellFormed :
    (id worker : String) (lease_ms now : ℕ) (db : Db)
    → WellFormed db
    → WellFormed (heartbeat id worker lease_ms now db).1
unfolding heartbeat renew_transaction_processing_lease update_transactions
beat-WellFormed id worker lease_ms now db w =
    unfold renewed in
    update-WellFormed (held_by id worker) (renewed lease_ms now) db (λ r. refl) (λ r. refl)
      (λ r hit. renewed-IsLeased lease_ms now r (ground arith)) w

carry_out-WellFormed :
    (id worker : String) (d : Decision) (now : ℕ) (db : Db)
    → IsConclusive d
    → WellFormed db
    → WellFormed (carry_out id worker d now db).1
unfolding carry_out finalize_transaction_processing update_transactions
carry_out-WellFormed id worker (fail reason) now db c w = w
carry_out-WellFormed id worker (finalize t u) now db (e, c) w =
    unfold finalized in
    update-WellFormed (held_by id worker) (finalized u now) db (λ r. refl) (λ r. refl)
      (λ r _ _. finalized-IsLeased u t now r e (elim c [ inl d ↦ rw d | inr d ↦ rw d ])) w

pub process-WellFormed :
    (h : Host) (cfg : Config) (txn : Value) (id worker timestamp : String) (timeline : Items)
    (now : ℕ) (db : Db)
    → WellFormed db
    → WellFormed (process_claimed_transaction h cfg txn id worker timestamp timeline now db).1
unfolding process_claimed_transaction
process-WellFormed h cfg txn id worker timestamp timeline now db w =
    carry_out-WellFormed id worker (decide h cfg txn timestamp timeline) now db
      (decide-IsConclusive h cfg txn timestamp timeline) w

pub recover-WellFormed :
    (timeout now : ℕ) (db : Db)
    → WellFormed db
    → WellFormed (recover_stale_processing_transactions timeout now db).1
unfolding recover_stale_processing_transactions
recover-WellFormed timeout now db w =
    unfold recovered in
    update-WellFormed (stale timeout now) (recovered now) db (λ r. refl) (λ r. refl)
      (λ r _ _. recovered-IsLeased now r) w

update_failed-WellFormed :
    (h : Host) (job : Job) (reason : String) (t : Status) (now : ℕ) (db : Db)
    → is_processing t ≡ false
    → WellFormed db
    → WellFormed (update_failed h job reason t now db)
unfolding update_transaction update_transactions apply_updates
update_failed-WellFormed h job reason t now db p w =
    update-WellFormed (has_id (h.pg_text (prop "id" job.payload)))
      (apply_updates (failure_updates job reason t) now) db (λ r. refl) (λ r. refl)
      (λ r _ _. apply_updates-IsLeased (failure_updates job reason t) t now r refl p refl) w

dead_letter-WellFormed :
    (h : Host) (job : Job) (reason : String) (now : ℕ) (txn : Value) (db : Db)
    → WellFormed db
    → WellFormed (upsert_dead_letter h job txn reason now db)
unfolding upsert_dead_letter
dead_letter-WellFormed h job reason now txn db w =
    elim (Bool-cases (is_some (first_where (for_job job.id) db.dead_letter_jobs))) [
      | inl known ↦ rw known (dead_letters-WellFormed db _ w)
      | inr unknown ↦ rw unknown (dead_letters-WellFormed db _ w)
    ]

pub job_failed-WellFormed :
    (h : Host) (job : Job) (message : String) (faults : List Fault) (now : ℕ) (db : Db)
    → WellFormed db
    → WellFormed (on_job_failed h job message now (session_on db faults)).1.committed
job_failed-WellFormed h job message faults now db =
    let reason = sanitize_text h (str message) in
    on_job_failed-rule WellFormed h job message now
      (λ t db p. update_failed-WellFormed h job reason t now db p)
      (λ txn db. dead_letter-WellFormed h job reason now txn db) (session_on db faults)

pub recover_events-WellFormed :
    (timeout max_recoveries : ℕ) (ids : Option (List String)) (now : ℕ) (db : Db)
    → WellFormed db
    → WellFormed (recover_stale_outbox_events timeout max_recoveries ids now db).1
unfolding recover_stale_outbox_events
recover_events-WellFormed timeout max_recoveries ids now db w =
    unfold recovered_event in
    events-WellFormed (stale_event timeout ids now) (recovered_event max_recoveries now) db
      (λ e. refl) w

claim_events-WellFormed :
    (limit : ℕ) (processor : String) (ids : Option (List String)) (locked : Event → Bool) (now : ℕ)
    (db : Db)
    → WellFormed db
    → WellFormed (claim_outbox_events limit processor ids locked now db).1
unfolding claim_outbox_events
claim_events-WellFormed limit processor ids locked now db w =
    unfold claimed_event in
    events-WellFormed (id_among (pick_events limit ids locked db)) (claimed_event processor now) db
      (λ e. refl) w

pub claim_session-WellFormed :
    (limit : ℕ) (processor : String) (ids : Option (List String)) (locked : Event → Bool)
    (faults : List Fault) (now : ℕ) (db : Db)
    → WellFormed db
    → WellFormed
        (claim_in_transaction limit processor ids locked now (session_on db faults)).1.committed
claim_session-WellFormed limit processor ids locked faults now db w =
    claim_in_transaction-rule WellFormed limit processor ids locked now (session_on db faults) w
      (claim_events-WellFormed limit processor ids locked now db w)

pub publish-WellFormed :
    (h : Host) (e : Event) (outcome : Enqueue) (faults : List Fault) (now : ℕ)
    (queue : List QueuedJob) (db : Db)
    → WellFormed db
    → WellFormed (publish_event h e outcome now (queue, session_on db faults)).1.1.committed
publish-WellFormed h e outcome faults now queue db w =
    publish_event-rule WellFormed h e outcome now queue (session_on db faults)
      (λ d v.
        unfold sent_event in events-WellFormed (has_event_id e.id) (sent_event now) d (λ x. refl) v)
      (λ error d v.
        unfold returned_event in
        events-WellFormed (has_event_id e.id) (returned_event error now) d (λ x. refl) v)
      w
