-- ===== src/Store/Save/Inserts.antt =====
-- What the single statements of a save leave in the tables.
use payment_sim.Store.Tables.{Row, pending, Event, Db, first_where, is_some}
use payment_sim.Store.Save.Statements.{
  parameter, row_of, transaction_values, has_key, has_id, insert_row, event_of, new_event,
  insert_event_row, insert_event,
}
use payment_sim.Store.Save.{SaveResult, is_conflict}
use payment_sim.Sensitive.{sanitize_transaction_for_persistence}
use payment_sim.Value.{Value, Host, prop}
use payment_sim.Prelude.{
  ℕ, String, ◌≡◌, refl, sym, ap, subst, ◌⊎◌, inl, inr, Bool, true, false, Option, none, some, List,
  [], ◌∷◌, ◌++◌, arith, eq_refl, Bool-cases, Option-cases, Result, ok, throw, suc,
}

-- The outbox gained at most one event, a pending one for the transaction, and has one for it.
pub record HasOutboxEvent (id : String) (old new : Db) : Type 0 where
  pub event : (e : Event) × (first_where (event_of id) new.outbox_events ≡ some e)
  pub added :
      (new.outbox_events ≡ old.outbox_events)
      ⊎ ((e : Event) × (e.txn_id ≡ id)
          × (e.status ≡ pending)
          × (e.id ≡ old.next_event_id)
          × (new.outbox_events ≡ old.outbox_events ++ e ∷ [])
          × (first_where (event_of id) old.outbox_events ≡ none))
  -- The serial id is taken in either case.
  pub advanced : new.next_event_id ≡ suc old.next_event_id
  pub dead_letters : new.dead_letter_jobs ≡ old.dead_letter_jobs

-- `new` is `old` with one more transaction, that has an event in the outbox; its id and its
-- idempotency key were free.
pub record IsSaved (h : Host) (txn : Value) (now : ℕ) (r : Row) (old new : Db) : Type 0 where
  pub row : new.transactions ≡ old.transactions ++ r ∷ []
  pub values :
      (safe : Value) × (sanitize_transaction_for_persistence h txn ≡ ok safe)
      × (transaction_values h safe now ≡ ok r)
  pub event : HasOutboxEvent r.txn_id old new
  pub fresh : first_where (has_key r.idempotency_key) old.transactions ≡ none
  pub new_id : first_where (has_id r.txn_id) old.transactions ≡ none

-- What each answer of `saveTransactionWithOutbox` says of the tables.
abbrev pub SaveEnsures : Host → Value → ℕ → Db → Result SaveResult → Db → Type 0
SaveEnsures h txn now old (throw e) new = (new ≡ old) ⊎ ((r : Row) × IsSaved h txn now r old new)
SaveEnsures h txn now old (ok x) new =
    ((r : Row) × (x.inserted ≡ true) × (x.transaction ≡ some r) × IsSaved h txn now r old new)
    ⊎ ((x.inserted ≡ false)
        × (new ≡ old)
        × (x.transaction
            ≡ first_where (has_key (parameter h (prop "idempotencyKey" txn))) old.transactions)
        × (x.conflict ≡ is_conflict txn x.transaction))

pub first_where-append {ℓ} :
    {A : Type ℓ} (p : A → Bool) (xs : List A) (x : A)
    → first_where p xs ≡ none
    → p x ≡ true
    → first_where p (xs ++ x ∷ []) ≡ some x
unfolding first_where
first_where-append p [] x e t = rw t
first_where-append p (y ∷ ys) x e t = elim (Bool-cases (p y)) [
  | inl hit ↦ absurd (cc (rw hit at e))
  | inr miss ↦ rw miss (first_where-append p ys x (rw miss at e) t)
]

abbrev pub pair_or {ℓ} : {A : Type ℓ} → A → Result A → A
pair_or p (ok q) = q
pair_or p (throw m) = p

pub ok_pair {ℓ} : {A B : Type ℓ} (p q : A × B) → ok p ≡ ok q → (q.0 ≡ p.0) × (q.1 ≡ p.1)
ok_pair p q e = (ap (λ r. (pair_or p r).0) (sym e), ap (λ r. (pair_or p r).1) (sym e))

pub taken : {A : Type 0} (o : Option A) → is_some o ≡ false → o ≡ none
taken none e = refl
taken (some a) e = cc

-- What INSERT INTO transactions does.
pub insert_row-cases :
    (r : Row) (db new : Db) (o : Option Row)
    → insert_row r db ≡ ok (o, new)
    → ((o ≡ none) × (new ≡ db))
      ⊎ ((o ≡ some r)
          × (new ≡ record db { transactions = db.transactions ++ r ∷ [] })
          × (first_where (has_key r.idempotency_key) db.transactions ≡ none)
          × (first_where (has_id r.txn_id) db.transactions ≡ none))
unfolding insert_row
insert_row-cases r db new o e =
    elim (Bool-cases (is_some (first_where (has_key r.idempotency_key) db.transactions))) [
      | inl known ↦ inl (ok_pair _ _ (rw (known, insert_row) at e))
      | inr fresh ↦ elim (Bool-cases (is_some (first_where (has_id r.txn_id) db.transactions))) [
        | inl clash ↦ absurd (cc (rw (fresh, clash, insert_row) at e))
        | inr unused ↦
            let (p, q) = ok_pair _ _ (rw (fresh, unused, insert_row) at e) in
            inr (p, q, taken _ fresh, taken _ unused)
      ]
    ]

pub transaction_values-id :
    (h : Host) (txn : Value) (now : ℕ) (r : Row)
    → transaction_values h txn now ≡ ok r
    → parameter h (prop "id" txn) ≡ some r.txn_id
unfolding transaction_values row_of
transaction_values-id h txn now r e = ground arith

insert_event_row-event :
    (id : String) (payload : Value) (now : ℕ) (db : Db)
    → ((insert_event_row id payload now db).1.transactions ≡ db.transactions)
      × HasOutboxEvent id db (insert_event_row id payload now db).1
unfolding insert_event_row
insert_event_row-event id payload now db =
    elim (Option-cases (first_where (event_of id) db.outbox_events)) [
      | inr (e, known) ↦ rw known (
        refl,
        record { event = (e, known); added = inl refl; advanced = refl; dead_letters = refl },
      )
      | inl unknown ↦
          let e : Event = new_event db.next_event_id id payload now in
          rw unknown (
            refl,
            record {
              event = (e, first_where-append (event_of id) db.outbox_events e unknown (eq_refl id));
              added = inr (e, refl, refl, refl, refl, unknown);
              advanced = refl;
              dead_letters = refl;
            },
          )
    ]

pub insert_event-event :
    (h : Host) (txn payload : Value) (now : ℕ) (db new : Db) (o : Option Event) (id : String)
    → parameter h (prop "id" txn) ≡ some id
    → insert_event h txn payload now db ≡ ok (o, new)
    → (new.transactions ≡ db.transactions) × HasOutboxEvent id db new
unfolding insert_event
insert_event-event h txn payload now db new o id p e =
    let (_, same) = ok_pair _ _ (rw (p, insert_event) at e) in
    subst (λ (d : Db). (d.transactions ≡ db.transactions) × HasOutboxEvent id db d) (sym same)
      (insert_event_row-event id payload now db)
