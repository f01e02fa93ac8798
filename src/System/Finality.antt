-- ===== src/System/Finality.antt =====
-- Whether a transaction that is COMPLETED, DECLINED or FAILED stays as it is.
use payment_sim.System.{
  System, Action, submit, claim, beat, process, recover, job_failed, recover_events, claim_events,
  publish, session_on, perform, job_completed,
}
use payment_sim.Store.Sql.{Fault, autocommit}
use payment_sim.App.{Request, pay}
use payment_sim.App.Pay.{pay_stores}
use payment_sim.Jobs.{
  is_final, claim, claim_transaction, heartbeat, Decision, fail, finalize, decide, carry_out,
  process_claimed_transaction,
}
use payment_sim.Jobs.Failures.{
  attempts_or_one, failure_updates, update_after_failure, on_job_failed,
}
use payment_sim.Outbox.{recover_stale_outbox_events, claim_outbox_events, has_job}
use payment_sim.Store.Tables.{
  Status, accepted, Row, Db, update_where, first_where, is_accepted, is_processing, is_some,
}
use payment_sim.Store.Updates.{
  apply_updates, update_transactions, update_transaction, claimable, claimed,
  start_transaction_processing, held_by, renewed, renew_transaction_processing_lease, finalized,
  finalize_transaction_processing, stale, recovered, recover_stale_processing_transactions,
  get_transaction, Job,
}
use payment_sim.Store.Save.Statements.{has_id}
use payment_sim.Value.{Host, truthy, prop, str}
use payment_sim.Config.{Config}
use payment_sim.Outbox.Rounds.{publish_event-rule, claim_in_transaction-rule}
use payment_sim.Redact.{sanitize_text}
use payment_sim.Prelude.{
  ℕ, ◌<◌, String, ◌≡◌, refl, sym, ap, subst, inl, inr, Bool, true, false, Option, none, some, List,
  [], ◌∷◌, ◌++◌, arith, ltb, Bool-cases,
}

abbrev some_or {ℓ} : {A : Type ℓ} → A → Option A → A
some_or a none = a
some_or a (some b) = b

first_where-kept {ℓ} :
    {A : Type ℓ} (q p : A → Bool) (f : A → A) (rs : List A) (r : A)
    → ((x : A) → q (f x) ≡ q x)
    → p r ≡ false
    → first_where q rs ≡ some r
    → first_where q (update_where p f rs) ≡ some r
unfolding first_where update_where
first_where-kept q p f [] r same miss e = e
first_where-kept q p f (x ∷ xs) r same miss e = elim (Bool-cases (q x)) [
  | inl hit ↦
      let found : some x ≡ some r = rw hit at e in
      let this : p x ≡ false = subst (λ o. p (some_or x o) ≡ false) (sym found) miss in
      rw (this, hit) found
  | inr miss_x ↦
      let rest = first_where-kept q p f xs r same miss (rw miss_x at e) in
      elim (Bool-cases (p x)) [
        | inl changed ↦ rw (changed, same x, miss_x) rest
        | inr unchanged ↦ rw (unchanged, miss_x) rest
      ]
]

first_where-prefix {ℓ} :
    {A : Type ℓ} (q : A → Bool) (xs ys : List A) (r : A)
    → first_where q xs ≡ some r
    → first_where q (xs ++ ys) ≡ some r
unfolding first_where
first_where-prefix q [] ys r e = cc
first_where-prefix q (x ∷ xs) ys r e = elim (Bool-cases (q x)) [
  | inl hit ↦ rw hit (rw hit at e)
  | inr miss ↦ rw miss (first_where-prefix q xs ys r (rw miss at e))
]

first_where-updated {ℓ} :
    {A : Type ℓ} (q : A → Bool) (f : A → A) (rs : List A) (r : A)
    → ((x : A) → q (f x) ≡ q x)
    → first_where q rs ≡ some r
    → first_where q (update_where q f rs) ≡ some (f r)
unfolding first_where update_where
first_where-updated q f [] r same e = cc
first_where-updated q f (x ∷ xs) r same e = elim (Bool-cases (q x)) [
  | inl hit ↦
      let found : some x ≡ some r = rw hit at e in
      rw (hit, same x, hit) (ap (λ o. some (f (some_or x o))) found)
  | inr miss ↦ rw (miss, miss) (first_where-updated q f xs r same (rw miss at e))
]

final-not_processing : (t : Status) → is_final t ≡ true → is_processing t ≡ false
final-not_processing t e = ground arith

final-not_accepted : (t : Status) → is_final t ≡ true → is_accepted t ≡ false
final-not_accepted t e = ground arith

abbrev pub is_job_failed : Action → Bool
is_job_failed (job_failed job reason faults now) = true
is_job_failed a = false

module _ (id : String) (r : Row) (final : is_final r.status ≡ true) where
  update-keeps :
      (p : Row → Bool) (f : Row → Row) (db : Db)
      → ((x : Row) → has_id id (f x) ≡ has_id id x)
      → p r ≡ false
      → get_transaction id db ≡ some r
      → get_transaction id (record db { transactions = update_where p f db.transactions }) ≡ some r
  unfolding get_transaction
  update-keeps p f db = first_where-kept (has_id id) p f db.transactions r

  not_claimable : (job : String) → claimable job r ≡ false
  not_claimable job = rw (final-not_accepted r.status final) (ground arith)

  not_held : (job worker : String) → held_by job worker r ≡ false
  not_held job worker = rw (final-not_processing r.status final) (ground arith)

  submit-keeps :
      (h : Host) (cfg : Config) (client_id : String) (req : Request) (faults : List Fault) (db : Db)
      → get_transaction id db ≡ some r
      → get_transaction id (pay h cfg client_id req (session_on db faults)).1.committed ≡ some r
  unfolding get_transaction
  submit-keeps h cfg client_id req faults db e =
      elim (pay_stores h cfg client_id req (session_on db faults)) [
        | inl same ↦ rw same e
        | inr x ↦ rw (x.saved.row) (first_where-prefix (has_id id) db.transactions _ r e)
      ]

  carry_out-keeps :
      (job worker : String) (d : Decision) (now : ℕ) (db : Db)
      → get_transaction id db ≡ some r
      → get_transaction id (carry_out job worker d now db).1 ≡ some r
  unfolding carry_out finalize_transaction_processing update_transactions
  carry_out-keeps job worker (fail reason) now db e = e
  carry_out-keeps job worker (finalize t u) now db e =
      unfold finalized in
      update-keeps (held_by job worker) (finalized u now) db (λ x. refl) (not_held job worker) e

  -- A transaction that is COMPLETED, DECLINED or FAILED is left as it is by every step of every
  -- process, except the handler of the queue's `failed` event.
  pub final_kept :
      (h : Host) (cfg : Config) (a : Action) (s : System)
      → is_job_failed a ≡ false
      → get_transaction id s.db ≡ some r
      → get_transaction id (perform h cfg a s).db ≡ some r
  unfolding perform claim_transaction start_transaction_processing update_transactions heartbeat
      renew_transaction_processing_lease process_claimed_transaction
      recover_stale_processing_transactions recover_stale_outbox_events claim_outbox_events
      get_transaction claimed renewed recovered
  final_kept h cfg (submit client_id req faults) s m e =
      submit-keeps h cfg client_id req faults s.db e
  final_kept h cfg (claim job worker timeline lease_ms now) s m e =
      update-keeps (claimable job) (claimed worker (some timeline) lease_ms now) s.db (λ x. refl)
        (not_claimable job) e
  final_kept h cfg (beat job worker lease_ms now) s m e =
      update-keeps (held_by job worker) (renewed lease_ms now) s.db (λ x. refl)
        (not_held job worker) e
  final_kept h cfg (process txn job worker timestamp timeline now) s m e =
      carry_out-keeps job worker (decide h cfg txn timestamp timeline) now s.db e
  final_kept h cfg (recover timeout now) s m e =
      update-keeps (stale timeout now) (recovered now) s.db (λ x. refl)
        (rw (final-not_processing r.status final)) e
  final_kept h cfg (job_failed job reason faults now) s m e = cc
  final_kept h cfg (job_completed job) s m e =
      elim (Bool-cases (is_some (first_where (has_job job) s.queue))) [
        | inl known ↦ rw known e
        | inr unknown ↦ rw unknown e
      ]
  final_kept h cfg (recover_events timeout max_recoveries ids now) s m e = e
  final_kept h cfg (claim_events limit processor ids locked faults now) s m e =
      claim_in_transaction-rule (λ db. get_transaction id db ≡ some r) limit processor ids locked
        now (session_on s.db faults) e e
  final_kept h cfg (publish x outcome faults now) s m e =
      publish_event-rule (λ db. get_transaction id db ≡ some r) h x outcome now s.queue
        (session_on s.db faults) (λ db found. found) (λ error db found. found) e

-- A `failed` event with attempts left, whose query does not fail, puts the transaction that its job
-- names back to ACCEPTED, with no holder and no lease, whatever its state was: also one that is
-- COMPLETED or DECLINED.
pub failed_event_reopens :
    (h : Host) (job : Job) (message : String) (now : ℕ) (db : Db) (r : Row)
    → truthy (prop "id" job.payload) ≡ true
    → job.attempts_made < attempts_or_one job.max_attempts
    → get_transaction (h.pg_text (prop "id" job.payload)) db ≡ some r
    → (r' : Row) × (get_transaction
          (h.pg_text (prop "id" job.payload))
          (on_job_failed h job message now (session_on db [])).1.committed
        ≡ some r')
      × (r'.status ≡ accepted)
      × (r'.processor_instance_id ≡ none)
      × (r'.lease_expires_at ≡ none)
unfolding on_job_failed autocommit get_transaction update_after_failure update_transaction
    update_transactions apply_updates
failed_event_reopens h job message now db r named again e =
    let reason = sanitize_text h (str message) in
    let left : ltb job.attempts_made (attempts_or_one job.max_attempts) ≡ true = ground arith in
    rw (left, named)
      (
        apply_updates (failure_updates job reason accepted) now r,
        first_where-updated (has_id (h.pg_text (prop "id" job.payload)))
            (apply_updates (failure_updates job reason accepted) now) db.transactions r (λ x. refl)
            e,
        refl,
        refl,
        refl,
      )
