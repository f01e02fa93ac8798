-- ===== src/System/Delivered.antt =====
-- The promise of the transactional outbox: the job of an event that is SENT is in the queue, or was.
use payment_sim.System.Apart.{
  submit-Delivery, claim-Delivery, beat-Delivery, process-Delivery, recover-Delivery,
  job_failed-Delivery,
}
use payment_sim.System.Publishing.{
  answered_events, recover_events-Delivery, claim_session-Delivery, publish-Delivery,
}
use payment_sim.System.{
  claim, System, Action, submit, beat, process, recover, job_failed, recover_events, claim_events,
  publish, session_on, perform, empty_system, job_completed, has_job,
}
use payment_sim.System.Delivery.{Queued, Delivery, queue-Delivery, complete_job-keeps}
use payment_sim.Outbox.Publish.{claim_in_transaction}
use payment_sim.Store.Tables.{sent, Event, is_some, first_where}
use payment_sim.Value.{Host}
use payment_sim.Config.{Config}
use payment_sim.Prelude.{◌≡◌, List, [], ◌++◌, All, Bool-cases, inl, inr}
use mathlib.Core.List.{Memᴰ}

abbrev pub claimed_by : Action → System → List Event
claimed_by (claim_events limit processor ids locked faults now) s =
    answered_events (claim_in_transaction limit processor ids locked now (session_on s.db faults)).0
claimed_by _ s = []

-- A publisher publishes what it has in hand.
abbrev pub IsHeldBy : List Event → Action → Type 0
IsHeldBy held (publish e outcome faults now) = Memᴰ e held
IsHeldBy held _ = Unit

-- The states that the processes can reach, with all events that were claimed on the way.
pub data Claiming (h : Host) (cfg : Config) : List Event → System → Type 0 where
  begins : Claiming h cfg [] empty_system
  goes_on :
      {held : List Event} {s : System} (a : Action)
      → IsHeldBy held a
      → Claiming h cfg held s
      → Claiming h cfg (claimed_by a s ++ held) (perform h cfg a s)

perform-Delivery :
    (h : Host) (cfg : Config) (held : List Event) (a : Action) (s : System)
    → IsHeldBy held a
    → Delivery held (s.queue, s.completed) s.db
    → let s' = perform h cfg a s in Delivery (claimed_by a s ++ held) (s'.queue, s'.completed) s'.db
unfolding perform
perform-Delivery h cfg held (submit client_id req faults) s m =
    submit-Delivery held (s.queue, s.completed) h cfg client_id req faults s.db
perform-Delivery h cfg held (claim id worker timeline lease_ms now) s m =
    claim-Delivery held (s.queue, s.completed) id worker timeline lease_ms now s.db
perform-Delivery h cfg held (beat id worker lease_ms now) s m =
    beat-Delivery held (s.queue, s.completed) id worker lease_ms now s.db
perform-Delivery h cfg held (process txn id worker timestamp timeline now) s m =
    process-Delivery held (s.queue, s.completed) h cfg txn id worker timestamp timeline now s.db
perform-Delivery h cfg held (recover timeout now) s m =
    recover-Delivery held (s.queue, s.completed) timeout now s.db
perform-Delivery h cfg held (job_failed job reason faults now) s m =
    job_failed-Delivery held (s.queue, s.completed) h job reason faults now s.db
perform-Delivery h cfg held (job_completed id) s m =
    elim (Bool-cases (is_some (first_where (has_job id) s.queue))) [
      | inl known ↦ rw known (
          queue-Delivery held (s.queue, s.completed) _ s.db
            (complete_job-keeps id s.queue s.completed))
      | inr unknown ↦ rw unknown (λ d. d)
    ]
perform-Delivery h cfg held (recover_events timeout max_recoveries ids now) s m =
    recover_events-Delivery held (s.queue, s.completed) timeout max_recoveries ids now s.db
perform-Delivery h cfg held (claim_events limit processor ids locked faults now) s m =
    claim_session-Delivery held (s.queue, s.completed) limit processor ids locked faults now s.db
perform-Delivery h cfg held (publish e outcome faults now) s m =
    publish-Delivery held h e outcome faults now s.queue s.completed s.db m

Claiming-Delivery :
    (h : Host) (cfg : Config) (held : List Event) (s : System)
    → Claiming h cfg held s
    → Delivery held (s.queue, s.completed) s.db
Claiming-Delivery h cfg held s begins = record { queued = tt; listed = tt; holds = tt }
Claiming-Delivery h cfg held s (goes_on {held = before} {s = s'} a m c) =
    perform-Delivery h cfg before a s' m (Claiming-Delivery h cfg before s' c)

-- In every state that the processes can reach, when publishers publish only events that a claim
-- answered before, the job of each event that is SENT is in the queue or it was there and completed,
-- in any order of the steps, with any failing statement and whatever `add` answers.
pub sent-Queued :
    (h : Host) (cfg : Config) (held : List Event) (s : System)
    → Claiming h cfg held s
    → All (λ e. e.status ≡ sent → Queued e.txn_id (s.queue, s.completed)) s.db.outbox_events
sent-Queued h cfg held s c = (Claiming-Delivery h cfg held s c).queued
