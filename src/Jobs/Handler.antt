-- ===== src/Jobs/Handler.antt =====
-- What the whole job handler leaves in the tables.
use payment_sim.Jobs.{
  is_final, JobResult, skipped, done, default_lease_ms, Look, stop, look, claim_transaction,
  Decision, fail, finalize, decide, carry_out, process_claimed_transaction, after_claim, after_look,
  handle_transaction_job,
}
use payment_sim.Jobs.Outcome.{IsConclusive, decide-IsConclusive}
use payment_sim.Value.{Value, Items, Host, prop}
use payment_sim.Config.{Config}
use payment_sim.Sensitive.{sanitize_payload}
use payment_sim.Store.Tables.{
  Status, completed, Row, Db, update_where, first_where, returned, is_some, is_accepted,
}
use payment_sim.Store.Save.Statements.{parameter}
use payment_sim.Store.Updates.{
  update_transactions, held_by, finalized, finalize_transaction_processing, get_transaction,
}
use payment_sim.Prelude.{
  ℕ, String, ◌≡◌, refl, ap, subst, ◌⊎◌, inl, inr, Bool, true, false, Option, none, some, List, [],
  ◌∷◌, arith, eq_iff, if◌then◌else◌, Bool-cases, Option-cases, Result, throw, ok,
}

-- Some element has the property.
pub Any {ℓ} : {A : Type ℓ} → (A → Type 0) → List A → Type 0
Any P [] = ⊥
Any P (x ∷ xs) = P x ⊎ Any P xs

-- A row that an UPDATE returned is in the table, updated.
Any-found {ℓ} :
    {A : Type ℓ} (P : A → Type 0) (p : A → Bool) (f : A → A) (rs : List A) (y : A)
    → ((x : A) → p x ≡ true → P (f x))
    → first_where p rs ≡ some y
    → Any P (update_where p f rs)
unfolding first_where update_where Any
Any-found P p f [] y good e = cc
Any-found P p f (x ∷ xs) y good e = elim (Bool-cases (p x)) [
  | inl hit ↦ rw hit (inl (good x hit))
  | inr miss ↦ rw miss (inr (Any-found P p f xs y good (rw miss at e)))
]

Any-returned {ℓ} :
    {A : Type ℓ} (P : A → Type 0) (p : A → Bool) (f : A → A) (rs : List A)
    → ((x : A) → p x ≡ true → P (f x))
    → is_some (returned p f rs) ≡ true
    → Any P (update_where p f rs)
unfolding returned
Any-returned P p f rs good e = elim (Option-cases (first_where p rs)) [
  | inl nothing ↦ absurd (cc (e, ap is_some (returned_nothing p f rs nothing)))
  | inr (y, found) ↦ Any-found P p f rs y good found
]
  where
    returned_nothing :
        {A : Type ℓ} (p : A → Bool) (f : A → A) (rs : List A)
        → first_where p rs ≡ none
        → returned p f rs ≡ none
    returned_nothing p f rs nothing = rw (nothing, returned)

-- the transaction, finalized
abbrev pub IsFinalized : String → Status → Row → Type 0
IsFinalized id t r =
    (r.txn_id ≡ id)
    × (r.status ≡ t)
    × (r.processor_instance_id ≡ none)
    × (r.lease_expires_at ≡ none)

-- what the answer of a job says of the tables
abbrev pub JobEnsures : Option String → Result JobResult → Db → Type 0
JobEnsures (some id) (ok (done t)) db =
    ((t ≡ completed) ⊎ (t ≡ Status.declined)) × Any (IsFinalized id t) db.transactions
JobEnsures none (ok (done t)) db = ⊥
JobEnsures id (ok (skipped reason)) db = Unit
JobEnsures id (throw e) db = Unit

held-id : (id worker : String) (r : Row) → held_by id worker r ≡ true → r.txn_id ≡ id
held-id id worker r hit = ground (arith, eq_iff r.txn_id id)

carry_out-JobEnsures :
    (id worker : String) (d : Decision) (now : ℕ) (db : Db)
    → IsConclusive d
    → let (r, db') = carry_out id worker d now db in JobEnsures (some id) r db'
unfolding carry_out
carry_out-JobEnsures id worker (fail reason) now db c = tt
carry_out-JobEnsures id worker (finalize t u) now db (e, c) =
    by_answer (is_some (finalize_transaction_processing id worker u now db).0) refl
  where
    by_answer :
        (b : Bool)
        → is_some (finalize_transaction_processing id worker u now db).0 ≡ b
        → JobEnsures
            (some id)
            (ok (if b then done t else skipped "Transaction finalization lost"))
            (finalize_transaction_processing id worker u now db).1
    by_answer false lost = tt
    by_answer true found = (
      c,
      unfold finalize_transaction_processing update_transactions in
          Any-returned (IsFinalized id t) (held_by id worker) (finalized u now) db.transactions
            (λ x hit. unfold finalized in (held-id id worker x hit, rw e, refl, refl)) found,
    )

claimed-JobEnsures :
    (h : Host) (cfg : Config) (txn : Value) (id worker timestamp : String) (timeline : Items)
    (now : ℕ) (others : Db → Db) (c : Bool × Db)
    → let (r, db') = after_claim h cfg txn id worker timestamp timeline now others c in
      JobEnsures (some id) r db'
unfolding after_claim process_claimed_transaction
claimed-JobEnsures h cfg txn id worker timestamp timeline now others (false, db) = tt
claimed-JobEnsures h cfg txn id worker timestamp timeline now others (true, db) =
    carry_out-JobEnsures id worker (decide h cfg txn timestamp timeline) now (others db)
      (decide-IsConclusive h cfg txn timestamp timeline)

abbrev is_skipped : JobResult → Bool
is_skipped (skipped reason) = true
is_skipped (done t) = false

abbrev stops_skipped : Result Look → Bool
stops_skipped (ok (stop r)) = is_skipped r
stops_skipped l = true

look-skips : (id timestamp : String) (o : Option Row) → stops_skipped (look id timestamp o) ≡ true
unfolding look
look-skips id timestamp none = refl
look-skips id timestamp (some r) = elim (Bool-cases (is_final r.status)) [
  | inl final ↦ rw final
  | inr open_status ↦ elim (Bool-cases (is_accepted r.status)) [
    | inl fresh ↦ rw (open_status, fresh)
    | inr busy ↦ rw (open_status, busy)
  ]
]

look-JobEnsures :
    (h : Host) (cfg : Config) (txn : Value) (id worker timestamp : String) (now : ℕ)
    (others others' : Db → Db) (l : Result Look) (db : Db)
    → stops_skipped l ≡ true
    → let (r, db') = after_look h cfg txn id worker timestamp now others others' l db in
      JobEnsures (some id) r db'
unfolding after_look
look-JobEnsures h cfg txn id worker timestamp now others others' (throw e) db s = tt
look-JobEnsures h cfg txn id worker timestamp now others others' (ok (stop (skipped reason))) db s =
    tt
look-JobEnsures h cfg txn id worker timestamp now others others' (ok (stop (done t))) db s = cc
look-JobEnsures h cfg txn id worker timestamp now others others' (ok (Look.claim timeline)) db s =
    claimed-JobEnsures h cfg txn id worker timestamp timeline now others'
      (claim_transaction id worker timeline (default_lease_ms h) now (others db))

-- A job that reports a status has stored it: the status is COMPLETED or DECLINED, and the
-- transaction with the id of the job's sanitized data has that status in the table and no holder
-- and no lease, whatever the other processes do between the job's statements.
pub job_done :
    (h : Host) (cfg : Config) (job_data txn : Value) (id worker timestamp : String) (now : ℕ)
    (others others' : Db → Db) (db : Db) (t : Status)
    → sanitize_payload h job_data ≡ ok txn
    → parameter h (prop "id" txn) ≡ some id
    → (handle_transaction_job h cfg job_data worker timestamp now others others' db).0 ≡ ok (done t)
    → ((t ≡ completed) ⊎ (t ≡ Status.declined))
      × Any
          (IsFinalized id t)
          (handle_transaction_job h cfg job_data worker timestamp now others others'
            db).1.transactions
job_done h cfg job_data txn id worker timestamp now others others' db t cleaned named e =
    subst
      (λ r.
        JobEnsures (some id) r
          (handle_transaction_job h cfg job_data worker timestamp now others others' db).1)
      e ensured
  where
    ensured :
        JobEnsures
          (some id)
          (handle_transaction_job h cfg job_data worker timestamp now others others' db).0
          (handle_transaction_job h cfg job_data worker timestamp now others others' db).1
    ensured =
        unfold handle_transaction_job in
        rw (cleaned, named)
          (look-JobEnsures h cfg txn id worker timestamp now others others'
            (look id timestamp (get_transaction id db)) db
            (look-skips id timestamp (get_transaction id db)))
