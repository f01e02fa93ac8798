-- ===== src/System/Taken.antt =====
-- How long a claim keeps other workers out.
use payment_sim.Store.Updates.Exclusion.{
  update_transactions-none, All-after, All-trivial, claimable_of_returned,
}
use payment_sim.System.{
  claim, System, Action, submit, beat, process, recover, job_failed, job_completed, recover_events,
  claim_events, publish, session_on, perform, Items,
}
use payment_sim.App.Pay.{pay_stores}
use payment_sim.Jobs.{
  claim_transaction, heartbeat, Decision, fail, finalize, decide, carry_out,
  process_claimed_transaction,
}
use payment_sim.Jobs.Outcome.{IsConclusive, decide-IsConclusive}
use payment_sim.Outbox.{recover_stale_outbox_events, claim_outbox_events, has_job}
use payment_sim.Outbox.Rounds.{publish_event-rule, claim_in_transaction-rule}
use payment_sim.Store.Tables.{Row, Db, update_where, first_where, is_some, is_accepted}
use payment_sim.Store.Updates.{
  update_transactions, claimable, claimed, start_transaction_processing, held_by, renewed,
  renew_transaction_processing_lease, finalized, finalize_transaction_processing,
}
use payment_sim.Store.Updates.Lifecycle.{All-update_where}
use payment_sim.Store.Save.Statements.{has_id}
use payment_sim.Value.{Host}
use payment_sim.Config.{Config}
use payment_sim.Prelude.{
  ℕ, String, ◌≡◌, refl, sym, subst, inl, inr, Bool, true, false, none, some, List, [], ◌∷◌, ◌++◌,
  ◌==◌, eq_iff, Bool-cases, All, All-append, Option, arith, All-imp,
}

-- The transaction is in the table, and it is not ACCEPTED.
pub record IsTaken (id : String) (db : Db) : Type 0 where
  pub known : is_some (first_where (has_id id) db.transactions) ≡ true
  pub busy : All (λ r. has_id id r ≡ true → is_accepted r.status ≡ false) db.transactions

known_after_update :
    (id : String) (p : Row → Bool) (f : Row → Row) (rs : List Row)
    → ((r : Row) → (f r).txn_id ≡ r.txn_id)
    → is_some (first_where (has_id id) rs) ≡ true
    → is_some (first_where (has_id id) (update_where p f rs)) ≡ true
unfolding first_where update_where
known_after_update id p f [] ids e = cc
known_after_update id p f (r ∷ rs) ids e = elim (Bool-cases (p r)) [
  | inl changed ↦ elim (Bool-cases (has_id id r)) [
    | inl hit ↦ rw (changed, ids r, hit) refl
    | inr miss ↦ rw (changed, ids r, miss) (known_after_update id p f rs ids (rw miss at e))
  ]
  | inr unchanged ↦ elim (Bool-cases (has_id id r)) [
    | inl hit ↦ rw (unchanged, hit) refl
    | inr miss ↦ rw (unchanged, miss) (known_after_update id p f rs ids (rw miss at e))
  ]
]

-- An UPDATE after which no row it changes is ACCEPTED that was not.
update-IsTaken :
    (id : String) (p : Row → Bool) (f : Row → Row) (db : Db)
    → ((r : Row) → (f r).txn_id ≡ r.txn_id)
    → ((r : Row) → p r ≡ true → is_accepted r.status ≡ false → is_accepted (f r).status ≡ false)
    → IsTaken id db
    → IsTaken id (record db { transactions = update_where p f db.transactions })
update-IsTaken id p f db ids keeps t = record {
  known = known_after_update id p f db.transactions ids t.known;
  busy =
      All-update_where (λ r. has_id id r ≡ true → is_accepted r.status ≡ false) p f db.transactions
        (λ r hit not_accepted same.
          keeps r hit (not_accepted (subst (λ k. (k == id) ≡ true) (ids r) same)))
        t.busy;
}

known_prefix :
    (id : String) (xs ys : List Row)
    → is_some (first_where (has_id id) xs) ≡ true
    → is_some (first_where (has_id id) (xs ++ ys)) ≡ true
unfolding first_where
known_prefix id [] ys e = cc
known_prefix id (x ∷ xs) ys e = elim (Bool-cases (has_id id x)) [
  | inl hit ↦ rw hit refl
  | inr miss ↦ rw miss (known_prefix id xs ys (rw miss at e))
]

append-IsTaken :
    (id : String) (db : Db) (new : Db) (r : Row)
    → new.transactions ≡ db.transactions ++ r ∷ []
    → first_where (has_id r.txn_id) db.transactions ≡ none
    → IsTaken id db
    → IsTaken id new
append-IsTaken id db new r grown fresh t =
    let new_row : has_id id r ≡ true → is_accepted r.status ≡ false = λ same.
      let known : is_some (first_where (has_id r.txn_id) db.transactions) ≡ true =
        subst (λ k. is_some (first_where (has_id k) db.transactions) ≡ true)
          (sym ((eq_iff r.txn_id id).0 same)) t.known in
      absurd (cc (rw fresh at known)) in
    record {
      known =
          subst (λ rs. is_some (first_where (has_id id) rs) ≡ true) (sym grown)
            (known_prefix id db.transactions (r ∷ []) t.known);
      busy =
          subst (All (λ x. has_id id x ≡ true → is_accepted x.status ≡ false)) (sym grown)
            (All-append _ db.transactions (r ∷ []) t.busy (new_row, tt));
    }

-- The steps that give a claimed transaction back: a recovery, and the failure of a job.
abbrev pub gives_back : Action → Bool
gives_back (recover timeout now) = true
gives_back (job_failed job reason faults now) = true
gives_back a = false

carry_out-IsTaken :
    (id job worker : String) (d : Decision) (now : ℕ) (db : Db)
    → IsConclusive d
    → IsTaken id db
    → IsTaken id (carry_out job worker d now db).1
unfolding carry_out finalize_transaction_processing update_transactions
carry_out-IsTaken id job worker (fail reason) now db c t = t
carry_out-IsTaken id job worker (finalize status u) now db (e, c) t =
    unfold finalized in
    update-IsTaken id (held_by job worker) (finalized u now) db (λ r. refl)
      (λ r _ _. rw e (elim c [ inl d ↦ rw d refl | inr d ↦ rw d refl ])) t

perform-IsTaken :
    (id : String) (h : Host) (cfg : Config) (a : Action) (s : System)
    → gives_back a ≡ false
    → IsTaken id s.db
    → IsTaken id (perform h cfg a s).db
unfolding perform claim_transaction start_transaction_processing update_transactions heartbeat
    renew_transaction_processing_lease process_claimed_transaction recover_stale_outbox_events
    claim_outbox_events
perform-IsTaken id h cfg (submit client_id req faults) s g t =
    elim (pay_stores h cfg client_id req (session_on s.db faults)) [
      | inl same ↦ subst (IsTaken id) (sym same) t
      | inr x ↦ append-IsTaken id s.db _ x.row x.saved.row x.saved.new_id t
    ]
perform-IsTaken id h cfg (claim job worker timeline lease_ms now) s g t =
    unfold claimed in
    update-IsTaken id (claimable job) (claimed worker (some timeline) lease_ms now) s.db (λ r. refl)
      (λ r _ _. refl) t
perform-IsTaken id h cfg (beat job worker lease_ms now) s g t =
    unfold renewed in
    update-IsTaken id (held_by job worker) (renewed lease_ms now) s.db (λ r. refl) (λ r _ b. b) t
perform-IsTaken id h cfg (process txn job worker timestamp timeline now) s g t =
    carry_out-IsTaken id job worker (decide h cfg txn timestamp timeline) now s.db
      (decide-IsConclusive h cfg txn timestamp timeline) t
perform-IsTaken id h cfg (recover timeout now) s g t = cc
perform-IsTaken id h cfg (job_failed job reason faults now) s g t = cc
perform-IsTaken id h cfg (job_completed job) s g t =
    elim (Bool-cases (is_some (first_where (has_job job) s.queue))) [
      | inl waiting ↦ rw waiting t
      | inr gone ↦ rw gone t
    ]
perform-IsTaken id h cfg (recover_events timeout max_recoveries ids now) s g t = record {
  known = t.known;
  busy = t.busy;
}
perform-IsTaken id h cfg (claim_events limit processor ids locked faults now) s g t =
    claim_in_transaction-rule (IsTaken id) limit processor ids locked now (session_on s.db faults) t
      (record { known = t.known; busy = t.busy })
perform-IsTaken id h cfg (publish x outcome faults now) s g t =
    publish_event-rule (IsTaken id) h x outcome now s.queue (session_on s.db faults)
      (λ db b. record { known = b.known; busy = b.busy })
      (λ error db b. record { known = b.known; busy = b.busy }) t

abbrev pub perform_all : Host → Config → List Action → System → System
perform_all h cfg [] s = s
perform_all h cfg (a ∷ steps) s = perform_all h cfg steps (perform h cfg a s)

perform_all-IsTaken :
    (id : String) (h : Host) (cfg : Config) (steps : List Action) (s : System)
    → All (λ a. gives_back a ≡ false) steps
    → IsTaken id s.db
    → IsTaken id (perform_all h cfg steps s).db
perform_all-IsTaken id h cfg [] s none_gives t = t
perform_all-IsTaken id h cfg (a ∷ steps) s none_gives t =
    perform_all-IsTaken id h cfg steps (perform h cfg a s) none_gives.1
      (perform-IsTaken id h cfg a s none_gives.0 t)

known_of_claimable :
    (id : String) (rs : List Row) (r : Row)
    → first_where (claimable id) rs ≡ some r
    → is_some (first_where (has_id id) rs) ≡ true
unfolding first_where
known_of_claimable id [] r e = cc
known_of_claimable id (x ∷ xs) r e = elim (Bool-cases (has_id id x)) [
  | inl hit ↦ rw hit refl
  | inr miss ↦ rw miss (known_of_claimable id xs r (rw miss at e))
]

not_claimable :
    (id : String) (x : Row)
    → (has_id id x ≡ true → is_accepted x.status ≡ false)
    → claimable id x ≡ false
not_claimable id x b = elim (Bool-cases (has_id id x)) [
  | inl hit ↦ rw (hit, b hit) refl
  | inr miss ↦ rw miss refl
]

claimed-IsTaken :
    (id worker : String) (timeline : Option Items) (lease_ms now : ℕ) (db : Db) (r : Row)
    → (start_transaction_processing id worker timeline lease_ms now db).0 ≡ some r
    → IsTaken id (start_transaction_processing id worker timeline lease_ms now db).1
unfolding start_transaction_processing update_transactions
claimed-IsTaken id worker timeline lease_ms now db r e =
    let f = claimed worker timeline lease_ms now in
    let (x, found) = claimable_of_returned id f db.transactions r e in
    unfold claimed in
    record {
      known =
          known_after_update id (claimable id) f db.transactions (λ r. refl)
            (known_of_claimable id db.transactions x found);
      busy =
          All-after (claimable id) f (λ r. Unit {0}) _ db.transactions (λ r _ _ _. refl)
            (λ r _ miss same. ground arith) (All-trivial db.transactions);
    }

-- After a claim that found the transaction, and after any further steps of any process other than a
-- recovery of stale transactions and a failed event of the queue, a second claim of it is refused and
-- changes no row, whoever makes it.
pub claim_once :
    (h : Host) (cfg : Config) (id first second : String) (t1 t2 : Option Items)
    (lease1 lease2 now later : ℕ) (s : System) (r : Row) (steps : List Action)
    → (start_transaction_processing id first t1 lease1 now s.db).0 ≡ some r
    → All (λ a. gives_back a ≡ false) steps
    → let s' =
        perform_all h cfg steps
          (record s { db = (start_transaction_processing id first t1 lease1 now s.db).1 }) in
      start_transaction_processing id second t2 lease2 later s'.db ≡ (none, s'.db)
unfolding start_transaction_processing
claim_once h cfg id first second t1 t2 lease1 lease2 now later s r steps found none_gives =
    let s1 : System = record s {
      db = (start_transaction_processing id first t1 lease1 now s.db).1;
    } in
    let t =
      perform_all-IsTaken id h cfg steps s1 none_gives
        (claimed-IsTaken id first t1 lease1 now s.db r found) in
    update_transactions-none (claimable id) (claimed second t2 lease2 later)
      (perform_all h cfg steps s1).db
      (All-imp (λ x. has_id id x ≡ true → is_accepted x.status ≡ false) _
        (perform_all h cfg steps s1).db.transactions (λ x b. not_claimable id x b) t.busy)
