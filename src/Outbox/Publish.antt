-- ===== src/Outbox/Publish.antt =====
-- `claimOutboxEvents` and `processOutboxEvents` of outbox/outboxProcessor.js, query by query.
use payment_sim.Outbox.{
  recover_stale_outbox_events, pick_events, has_event_id, id_among, claimed_event, sent_event,
  returned_event, QueuedJob, add_job, default_stale_timeout_ms, default_max_recoveries,
}
use payment_sim.Redact.{sanitize_text}
use payment_sim.Store.Sql.{
  Session, Sql, query, autocommit, begin, commit, lift, ◌>>=◌, ◌>>◌, or_rollback,
}
use payment_sim.Store.Tables.{Event, Db, update_where}
use payment_sim.Value.{str, Host}
use payment_sim.Prelude.{ℕ, String, Bool, Option, none, List, [], ◌∷◌, Result, throw, ok}

-- How `transactionQueue.add` ends: the job is added, it is not, or it is and the call fails.
pub data Enqueue : Type 0 where
  added : Enqueue
  refused : String → Enqueue
  unanswered : String → Enqueue

abbrev pub enqueue : Event → Enqueue → List QueuedJob → Result (Unit {0}) × List QueuedJob
enqueue e added queue = (ok tt, add_job e queue)
enqueue e (refused error) queue = (throw error, queue)
enqueue e (unanswered error) queue = (throw error, add_job e queue)

-- UPDATE outbox_events SET ... WHERE id = $1
unfoldable pub mark_event : ℕ → (Event → Event) → Db → Result (Unit {0} × Db)
mark_event id set db =
    ok (tt, record db { outbox_events = update_where (has_event_id id) set db.outbox_events })

-- `catch (error) { ... }`
abbrev pub caught : Result (Unit {0}) → (String → Sql (Unit {0})) → Sql (Unit {0})
caught (ok u) handler = lift (ok u)
caught (throw error) handler = handler error

-- UPDATE ... SET status = 'SENT', after what `add` answered
abbrev pub mark_sent : Event → ℕ → Result (Unit {0}) → Sql (Unit {0})
mark_sent e now r = do lift r; autocommit (mark_event e.id (sent_event now))

-- UPDATE ... SET status = 'PENDING'
abbrev pub mark_pending : Host → Event → ℕ → String → Sql (Unit {0})
mark_pending h e now error =
    autocommit (mark_event e.id (returned_event (sanitize_text h (str error)) now))

-- One event of the loop, with what its `add` answers.
unfoldable pub publish_event :
    Host
    → Event
    → Enqueue
    → ℕ
    → List QueuedJob × Session
    → Result (Unit {0}) × (List QueuedJob × Session)
publish_event h e outcome now (queue, s) =
    let (r, queue') = enqueue e outcome queue in
    let (marked, s') = mark_sent e now r s in
    let (ended, s'') = caught marked (mark_pending h e now) s' in (ended, (queue', s''))

-- what follows one event; an error that leaves the loop ends it
abbrev pub go_on :
    (List QueuedJob × Session → Result (Unit {0}) × (List QueuedJob × Session))
    → Result (Unit {0}) × (List QueuedJob × Session)
    → Result (Unit {0}) × (List QueuedJob × Session)
go_on rest (ok u, p) = rest p
go_on rest (throw error, p) = (throw error, p)

-- the loop
unfoldable pub publish_events :
    Host
    → (Event → Enqueue)
    → ℕ
    → List Event
    → List QueuedJob × Session
    → Result (Unit {0}) × (List QueuedJob × Session)
publish_events h outcome now [] p = (ok tt, p)
publish_events h outcome now (e ∷ es) p =
    go_on (publish_events h outcome now es) (publish_event h e (outcome e) now p)

-- SELECT ... FOR UPDATE SKIP LOCKED
unfoldable pub select_events :
    ℕ → Option (List String) → (Event → Bool) → Db → Result (List Event × Db)
select_events limit ids locked db = ok (pick_events limit ids locked db, db)

-- `if (eventIds.length > 0) UPDATE ...`
abbrev pub mark_claimed : String → ℕ → List Event → Db → Result (Unit {0} × Db)
mark_claimed processor now picked db = ok (
  tt,
  record db {
    outbox_events = update_where (id_among picked) (claimed_event processor now) db.outbox_events;
  },
)

abbrev pub claim_picked : String → ℕ → List Event → Sql (Unit {0})
claim_picked processor now [] = lift (ok tt)
claim_picked processor now (e ∷ es) = query (mark_claimed processor now (e ∷ es))

-- `claimOutboxEvents`
unfoldable pub claim_in_transaction :
    ℕ → String → Option (List String) → (Event → Bool) → ℕ → Sql (List Event)
claim_in_transaction limit processor ids locked now = or_rollback (do
  begin
  picked ← query (select_events limit ids locked)
  claim_picked processor now picked
  commit
  lift (ok picked))

-- `recoverStaleOutboxEvents()`
unfoldable pub recover_events_statement : Host → ℕ → Db → Result (List Event × Db)
recover_events_statement h now db = ok (
    recover_stale_outbox_events (default_stale_timeout_ms h) (default_max_recoveries h) none now db)

abbrev pub publish_claimed :
    Host
    → (Event → Enqueue)
    → ℕ
    → List QueuedJob
    → Result (List Event) × Session
    → Result (Unit {0}) × (List QueuedJob × Session)
publish_claimed h outcome now queue (ok events, s) = publish_events h outcome now events (queue, s)
publish_claimed h outcome now queue (throw error, s) = (throw error, (queue, s))

-- `processOutboxEvents`
unfoldable pub process_outbox_events :
    Host
    → String
    → (Event → Bool)
    → (Event → Enqueue)
    → ℕ
    → List QueuedJob × Session
    → Result (Unit {0}) × (List QueuedJob × Session)
process_outbox_events h processor locked outcome now (queue, s) =
    publish_claimed h outcome now queue (
      (do
        _ ← autocommit (recover_events_statement h now)
        claim_in_transaction 10 processor none locked now)
        s)
