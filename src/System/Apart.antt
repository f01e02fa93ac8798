-- ===== src/System/Apart.antt =====
-- The steps that leave the outbox alone, and `POST /pay`, keep what is known of its events.
use payment_sim.Jobs.Failing.{on_job_failed-rule}
use payment_sim.System.{session_on}
use payment_sim.System.Delivery.{Delivery, tables-Delivery, saved-Delivery, QueueState}
use payment_sim.App.{Request, pay}
use payment_sim.App.Pay.{pay_stores}
use payment_sim.Jobs.{
  claim_transaction, heartbeat, Decision, fail, finalize, decide, carry_out,
  process_claimed_transaction,
}
use payment_sim.Jobs.Failures.{on_job_failed}
use payment_sim.Store.Tables.{Event, Db, first_where, is_some}
use payment_sim.Store.Updates.{
  update_transactions, update_transaction, start_transaction_processing,
  renew_transaction_processing_lease, finalize_transaction_processing,
  recover_stale_processing_transactions, Job, for_job, upsert_dead_letter,
}
use payment_sim.Redact.{sanitize_text}
use payment_sim.Value.{Value, str, Items, Host}
use payment_sim.Config.{Config}
use payment_sim.Prelude.{ℕ, String, refl, sym, subst, inl, inr, List, Bool-cases}
use payment_sim.Store.Sql.{Fault}

module _ (held : List Event) (queue : QueueState) where
  pub submit-Delivery :
      (h : Host) (cfg : Config) (client_id : String) (req : Request) (faults : List Fault) (db : Db)
      → Delivery held queue db
      → Delivery held queue (pay h cfg client_id req (session_on db faults)).1.committed
  submit-Delivery h cfg client_id req faults db d =
      elim (pay_stores h cfg client_id req (session_on db faults)) [
        | inl same ↦ subst (Delivery held queue) (sym same) d
        | inr x ↦ saved-Delivery held queue x.row.txn_id db _ x.saved.event d
      ]

  pub claim-Delivery :
      (id worker : String) (timeline : Items) (lease_ms now : ℕ) (db : Db)
      → Delivery held queue db
      → Delivery held queue (claim_transaction id worker timeline lease_ms now db).1
  unfolding claim_transaction start_transaction_processing update_transactions
  claim-Delivery id worker timeline lease_ms now db = tables-Delivery held queue db _ refl refl

  pub beat-Delivery :
      (id worker : String) (lease_ms now : ℕ) (db : Db)
      → Delivery held queue db
      → Delivery held queue (heartbeat id worker lease_ms now db).1
  unfolding heartbeat renew_transaction_processing_lease update_transactions
  beat-Delivery id worker lease_ms now db = tables-Delivery held queue db _ refl refl

  carry_out-Delivery :
      (id worker : String) (x : Decision) (now : ℕ) (db : Db)
      → Delivery held queue db
      → Delivery held queue (carry_out id worker x now db).1
  unfolding carry_out finalize_transaction_processing update_transactions
  carry_out-Delivery id worker (fail reason) now db d = d
  carry_out-Delivery id worker (finalize t u) now db d = tables-Delivery held queue db _ refl refl d

  pub process-Delivery :
      (h : Host) (cfg : Config) (txn : Value) (id worker timestamp : String) (timeline : Items)
      (now : ℕ) (db : Db)
      → Delivery held queue db
      → Delivery held queue
          (process_claimed_transaction h cfg txn id worker timestamp timeline now db).1
  unfolding process_claimed_transaction
  process-Delivery h cfg txn id worker timestamp timeline now db =
      carry_out-Delivery id worker (decide h cfg txn timestamp timeline) now db

  pub recover-Delivery :
      (timeout now : ℕ) (db : Db)
      → Delivery held queue db
      → Delivery held queue (recover_stale_processing_transactions timeout now db).1
  unfolding recover_stale_processing_transactions
  recover-Delivery timeout now db = tables-Delivery held queue db _ refl refl

  dead_letter-Delivery :
      (h : Host) (job : Job) (reason : String) (now : ℕ) (txn : Value) (db : Db)
      → Delivery held queue db
      → Delivery held queue (upsert_dead_letter h job txn reason now db)
  unfolding upsert_dead_letter
  dead_letter-Delivery h job reason now txn db d =
      elim (Bool-cases (is_some (first_where (for_job job.id) db.dead_letter_jobs))) [
        | inl known ↦ rw known (tables-Delivery held queue db _ refl refl d)
        | inr unknown ↦ rw unknown (tables-Delivery held queue db _ refl refl d)
      ]

  pub job_failed-Delivery :
      (h : Host) (job : Job) (message : String) (faults : List Fault) (now : ℕ) (db : Db)
      → Delivery held queue db
      → Delivery held queue (on_job_failed h job message now (session_on db faults)).1.committed
  unfolding update_transaction update_transactions
  job_failed-Delivery h job message faults now db =
      on_job_failed-rule (Delivery held queue) h job message now
        (λ t db p. tables-Delivery held queue db _ refl refl)
        (λ txn db. dead_letter-Delivery h job (sanitize_text h (str message)) now txn db)
        (session_on db faults)
