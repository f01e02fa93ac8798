-- ===== src/Jobs/Failing.antt =====
-- What a failed event leaves in the tables, whichever of its two queries fails.
use payment_sim.Jobs.Failures.{attempts_or_one, update_failed, update_after_failure, on_job_failed}
use payment_sim.Store.Sql.{Session, lift}
use payment_sim.Store.Sql.Rules.{>>=-rule, autocommit-rule}
use payment_sim.Store.Tables.{Status, accepted, Db, is_processing}
use payment_sim.Store.Updates.{Job, payload_of, upsert_dead_letter, save_dead_letter_job}
use payment_sim.Store.Save.Inserts.{ok_pair}
use payment_sim.Redact.{sanitize_text}
use payment_sim.Sensitive.{sanitize_payload}
use payment_sim.Value.{Value, str, Host, truthy, prop}
use payment_sim.Prelude.{ℕ, String, ◌≡◌, refl, sym, subst, inl, inr, false, ltb, Bool-cases, ok}

module _ (P : Db → Type 0) (h : Host) (job : Job) (message : String) (now : ℕ)
    (updates : (t : Status) (db : Db)
      → is_processing t ≡ false
      → P db
      → P (update_failed h job (sanitize_text h (str message)) t now db))
    (saves : (txn : Value) (db : Db)
      → P db
      → P (upsert_dead_letter h job txn (sanitize_text h (str message)) now db)) where
  update-rule :
      (t : Status) (s : Session)
      → is_processing t ≡ false
      → P s.committed
      → P (update_after_failure h job (sanitize_text h (str message)) t now s).1.committed
  unfolding update_after_failure
  update-rule t s open_to old = elim (Bool-cases (truthy (prop "id" job.payload))) [
    | inr missing ↦ rw missing old
    | inl given ↦ rw given (
        autocommit-rule P
          (λ db. ok (tt, update_failed h job (sanitize_text h (str message)) t now db)) s old
          (λ u db e. subst P (sym (ok_pair _ _ e).1) (updates t s.committed open_to old)))
  ]

  save-rule :
      (s : Session) → P s.committed → P (save_dead_letter_job h job message now s).1.committed
  unfolding save_dead_letter_job
  save-rule s old =
      >>=-rule (λ r s'. P s'.committed) (lift (sanitize_payload h (payload_of job))) _ s
        (λ e _. old)
        (λ txn _.
          autocommit-rule P
            (λ db. ok (tt, upsert_dead_letter h job txn (sanitize_text h (str message)) now db)) s
            old (λ u db e. subst P (sym (ok_pair _ _ e).1) (saves txn s.committed old)))

  pub on_job_failed-rule :
      (s : Session) → P s.committed → P (on_job_failed h job message now s).1.committed
  unfolding on_job_failed
  on_job_failed-rule s old =
      elim (Bool-cases (ltb job.attempts_made (attempts_or_one job.max_attempts))) [
        | inl again ↦ rw again (update-rule accepted s refl old)
        | inr last ↦ rw last (
            >>=-rule (λ r s'. P s'.committed) (save_dead_letter_job h job message now) _ s
              (λ e _. save-rule s old)
              (λ u _.
                update-rule Status.failed (save_dead_letter_job h job message now s).1 refl
                  (save-rule s old)))
      ]
