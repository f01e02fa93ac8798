-- ===== src/System/Invariant.antt =====
-- Every step keeps the tables well-formed.
use payment_sim.System.Preserved.{
  claim-WellFormed, beat-WellFormed, process-WellFormed, recover-WellFormed, job_failed-WellFormed,
  recover_events-WellFormed, claim_session-WellFormed, publish-WellFormed,
}
use payment_sim.System.{
  System, Action, submit, claim, beat, process, recover, job_failed, recover_events, claim_events,
  publish, session_on, perform, Reachable, initial, later, job_completed, has_job,
}
use payment_sim.Store.Sql.{Fault}
use payment_sim.System.WellFormed.{WellFormed, saved-WellFormed}
use payment_sim.App.{Request, pay}
use payment_sim.App.Pay.{IsStored, pay_stores}
use payment_sim.App.Ownership.{stored_values, stored_status}
use payment_sim.Jobs.{claim}
use payment_sim.Store.Tables.{Db, is_some, first_where}
use payment_sim.Store.Updates.Lifecycle.{IsLeased}
use payment_sim.Store.Save.Statements.{row_of}
use payment_sim.Value.{str, Host}
use payment_sim.Config.{Config}
use payment_sim.Prelude.{String, ◌≡◌, sym, subst, inl, inr, List, Bool-cases}

module _ (h : Host) (cfg : Config) (law : (s : String) → h.pg_text (str s) ≡ s) where
  stored-IsLeased :
      (client_id : String) (req : Request) (old new : Db) (x : IsStored h cfg client_id req old new)
      → IsLeased x.row
  stored-IsLeased client_id req old new x =
      let status = stored_status h cfg client_id req old new x law in
      let (id, channel, same) = stored_values h cfg client_id req old new x in
      unfold row_of in
      record {
        holder = rw (status, same);
        started = rw (status, same);
        heartbeat = rw (status, same);
        lease = rw (status, same);
      }

  submit-WellFormed :
      (client_id : String) (req : Request) (faults : List Fault) (db : Db)
      → WellFormed db
      → WellFormed (pay h cfg client_id req (session_on db faults)).1.committed
  submit-WellFormed client_id req faults db w =
      elim (pay_stores h cfg client_id req (session_on db faults)) [
        | inl same ↦ subst WellFormed (sym same) w
        | inr x ↦
            saved-WellFormed h x.full req.now x.row db _ x.saved
              (stored-IsLeased client_id req db _ x) w
      ]

module _ (h : Host) (cfg : Config) (law : (s : String) → h.pg_text (str s) ≡ s) where
  perform-WellFormed :
      (a : Action) (s : System) → WellFormed s.db → WellFormed (perform h cfg a s).db
  unfolding perform
  perform-WellFormed (submit client_id req faults) s w =
      submit-WellFormed h cfg law client_id req faults s.db w
  perform-WellFormed (claim id worker timeline lease_ms now) s w =
      claim-WellFormed id worker timeline lease_ms now s.db w
  perform-WellFormed (beat id worker lease_ms now) s w =
      beat-WellFormed id worker lease_ms now s.db w
  perform-WellFormed (process txn id worker timestamp timeline now) s w =
      process-WellFormed h cfg txn id worker timestamp timeline now s.db w
  perform-WellFormed (recover timeout now) s w = recover-WellFormed timeout now s.db w
  perform-WellFormed (job_failed job reason faults now) s w =
      job_failed-WellFormed h job reason faults now s.db w
  perform-WellFormed (job_completed id) s w =
      elim (Bool-cases (is_some (first_where (has_job id) s.queue))) [
        | inl known ↦ rw known w
        | inr unknown ↦ rw unknown w
      ]
  perform-WellFormed (recover_events timeout max_recoveries ids now) s w =
      recover_events-WellFormed timeout max_recoveries ids now s.db w
  perform-WellFormed (claim_events limit processor ids locked faults now) s w =
      claim_session-WellFormed limit processor ids locked faults now s.db w
  perform-WellFormed (publish e outcome faults now) s w =
      publish-WellFormed h e outcome faults now s.queue s.db w

-- In every state that the processes can reach, in any order and with any failing statement, ids
-- and idempotency keys are distinct, each transaction has exactly one event in the outbox, and a
-- transaction has a lease, a holder and a heartbeat exactly while it is PROCESSING. The driver is
-- assumed to send a text parameter as it is.
pub Reachable-WellFormed :
    (h : Host) (cfg : Config) (s : System)
    → ((t : String) → h.pg_text (str t) ≡ t)
    → Reachable h cfg s
    → WellFormed s.db
Reachable-WellFormed h cfg s law initial = record {
  distinct_ids = tt;
  distinct_keys = tt;
  recorded = tt;
  distinct_events = tt;
  leased = tt;
}
Reachable-WellFormed h cfg s law (later {s = before} a r) =
    perform-WellFormed h cfg law a before (Reachable-WellFormed h cfg before law r)
