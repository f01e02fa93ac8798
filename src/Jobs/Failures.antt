-- ===== src/Jobs/Failures.antt =====
-- The `failed` handler of jobs/transactionWorker.js.
use payment_sim.Store.Sql.{Sql, Session, lift, autocommit, ◌>>◌}
use payment_sim.Redact.{sanitize_text}
use payment_sim.Value.{num, str, Host, truthy, prop}
use payment_sim.Value.Numbers.{of_ℕ}
use payment_sim.Store.Tables.{Status, accepted, Db}
use payment_sim.Store.Updates.{Updates, no_updates, update_transaction, Job, save_dead_letter_job}
use payment_sim.Prelude.{ℕ, zero, String, true, Option, none, some, ltb, if◌then◌else◌, Result, ok}

-- `job.opts.attempts || 1`
abbrev pub attempts_or_one : Option ℕ → ℕ
attempts_or_one none = 1
attempts_or_one (some zero) = 1
attempts_or_one (some n) = n

-- the updates of the `failed` handler
abbrev pub failure_updates : Job → String → Status → Updates
failure_updates job reason status = record no_updates {
  status = some status;
  reason = some reason;
  retry_count = some (num (of_ℕ job.attempts_made));
  clear_processing = true;
}

abbrev pub update_failed : Host → Job → String → Status → ℕ → Db → Db
update_failed h job reason status now db =
    (update_transaction (h.pg_text (prop "id" job.payload)) (failure_updates job reason status) now
      db).1

-- `if (job.data && job.data.id) await updateTransaction(job.data.id, ...)`
unfoldable pub update_after_failure : Host → Job → String → Status → ℕ → Sql (Unit {0})
update_after_failure h job reason status now =
    if truthy (prop "id" job.payload)
    then autocommit (λ db. ok (tt, update_failed h job reason status now db))
    else lift (ok tt)

-- `catch (saveError)` logs the error
abbrev pub log_error : Result (Unit {0}) × Session → Result (Unit {0}) × Session
log_error (r, s) = (ok tt, s)

-- The `failed` handler of the worker, for an event that has its job. What it throws ends it.
unfoldable pub on_job_failed : Host → Job → String → ℕ → Sql (Unit {0})
on_job_failed h job message now s =
    let reason = sanitize_text h (str message) in
    if ltb job.attempts_made (attempts_or_one job.max_attempts)
    then update_after_failure h job reason accepted now s
    else log_error (
        (do
          save_dead_letter_job h job message now
          update_after_failure h job reason Status.failed now)
          s)
