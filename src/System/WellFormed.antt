-- ===== src/System/WellFormed.antt =====
-- What the unique constraints and the statements keep of the tables.
use payment_sim.Store.Tables.{
  Row, Event, DeadLetter, Db, update_where, first_where, map-update_where,
}
use payment_sim.Store.Updates.Lifecycle.{IsLeased, All-update_where}
use payment_sim.Store.Updates.Exclusion.{Distinct, txn_ids}
use payment_sim.Store.Save.Inserts.{IsSaved}
use payment_sim.Store.Save.Statements.{has_key, has_id, event_of}
use payment_sim.Value.{Value, Host}
use payment_sim.Prelude.{
  ℕ, String, ◌≡◌, refl, sym, ap, ◌∙◌, subst, ◌≢◌, inl, inr, Bool, true, false, Option, none, some,
  List, [], ◌∷◌, ◌++◌, map, arith, ◌==◌, eq_iff, eq_refl, Bool-cases, any, All, All-append, All-imp,
}

abbrev pub Listed : String → List String → Type 0
Listed id ids = any (λ other. other == id) ids ≡ true

abbrev pub event_txn_ids : List Event → List String
event_txn_ids = map (λ e. e.txn_id)

abbrev pub keys : List Row → List (Option String)
keys = map (λ r. r.idempotency_key)

-- Distinct, NULL aside.
abbrev pub DistinctKeys : List (Option String) → Type 0
DistinctKeys [] = Unit
DistinctKeys (x ∷ xs) = All (λ y. x ≡ y → x ≡ none) xs × DistinctKeys xs

-- Ids and idempotency keys are distinct, each transaction has an event in the outbox, no
-- transaction has two, and the columns of a lease are set exactly while it is PROCESSING.
pub record WellFormed (db : Db) : Type 0 where
  pub distinct_ids : Distinct (txn_ids db.transactions)
  pub distinct_keys : DistinctKeys (keys db.transactions)
  pub recorded : All (λ id. Listed id (event_txn_ids db.outbox_events)) (txn_ids db.transactions)
  pub distinct_events : Distinct (event_txn_ids db.outbox_events)
  pub leased : All IsLeased db.transactions

map-append {ℓ κ} :
    {A : Type ℓ} {B : Type κ} (f : A → B) (xs ys : List A) → map f (xs ++ ys) ≡ map f xs ++ map f ys
map-append f [] ys = refl
map-append f (x ∷ xs) ys = ap (◌∷◌ (f x)) (map-append f xs ys)

-- An UPDATE of transactions that keeps the ids, the keys and the leases in order.
pub update-WellFormed :
    (p : Row → Bool) (f : Row → Row) (db : Db)
    → ((r : Row) → (f r).txn_id ≡ r.txn_id)
    → ((r : Row) → (f r).idempotency_key ≡ r.idempotency_key)
    → ((r : Row) → p r ≡ true → IsLeased r → IsLeased (f r))
    → WellFormed db
    → WellFormed (record db { transactions = update_where p f db.transactions })
update-WellFormed p f db ids key lease w =
    let same = map-update_where (λ r. r.txn_id) p f db.transactions ids in
    let same_keys = map-update_where (λ r. r.idempotency_key) p f db.transactions key in
    record {
      distinct_ids = subst Distinct (sym same) w.distinct_ids;
      distinct_keys = subst DistinctKeys (sym same_keys) w.distinct_keys;
      recorded =
          subst (All (λ id. Listed id (event_txn_ids db.outbox_events))) (sym same) w.recorded;
      distinct_events = w.distinct_events;
      leased = All-update_where IsLeased p f db.transactions lease w.leased;
    }

-- An UPDATE of the outbox that keeps each event's transaction.
pub events-WellFormed :
    (p : Event → Bool) (f : Event → Event) (db : Db)
    → ((e : Event) → (f e).txn_id ≡ e.txn_id)
    → WellFormed db
    → WellFormed (record db { outbox_events = update_where p f db.outbox_events })
events-WellFormed p f db ids w =
    let same = map-update_where (λ e. e.txn_id) p f db.outbox_events ids in
    record {
      distinct_ids = w.distinct_ids;
      distinct_keys = w.distinct_keys;
      recorded =
          subst (λ es. All (λ id. Listed id es) (txn_ids db.transactions)) (sym same) w.recorded;
      distinct_events = subst Distinct (sym same) w.distinct_events;
      leased = w.leased;
    }

-- Dead letters are no part of it.
pub dead_letters-WellFormed :
    (db : Db) (ds : List DeadLetter)
    → WellFormed db
    → WellFormed (record db { dead_letter_jobs = ds })
dead_letters-WellFormed db ds w = record {
  distinct_ids = w.distinct_ids;
  distinct_keys = w.distinct_keys;
  recorded = w.recorded;
  distinct_events = w.distinct_events;
  leased = w.leased;
}

Distinct-snoc :
    (xs : List String) (y : String) → Distinct xs → All (λ x. x ≢ y) xs → Distinct (xs ++ y ∷ [])
Distinct-snoc [] y d n = (tt, tt)
Distinct-snoc (x ∷ xs) y d n =
    (All-append (λ z. x ≢ z) xs (y ∷ []) d.0 (n.0, tt), Distinct-snoc xs y d.1 n.1)

DistinctKeys-snoc :
    (xs : List (Option String)) (y : Option String)
    → DistinctKeys xs
    → All (λ x. x ≡ y → x ≡ none) xs
    → DistinctKeys (xs ++ y ∷ [])
DistinctKeys-snoc [] y d n = (tt, tt)
DistinctKeys-snoc (x ∷ xs) y d n =
    (All-append (λ z. x ≡ z → x ≡ none) xs (y ∷ []) d.0 (n.0, tt), DistinctKeys-snoc xs y d.1 n.1)

new_id-fresh :
    (id : String) (rs : List Row)
    → first_where (has_id id) rs ≡ none
    → All (λ x. x ≢ id) (txn_ids rs)
unfolding first_where
new_id-fresh id [] e = tt
new_id-fresh id (r ∷ rs) e = elim (Bool-cases (has_id id r)) [
  | inl hit ↦ absurd (cc (rw hit at e))
  | inr miss ↦ (ground (arith, eq_iff r.txn_id id), new_id-fresh id rs (rw miss at e))
]

new_event-fresh :
    (id : String) (es : List Event)
    → first_where (event_of id) es ≡ none
    → All (λ x. x ≢ id) (event_txn_ids es)
unfolding first_where
new_event-fresh id [] e = tt
new_event-fresh id (r ∷ rs) e = elim (Bool-cases (event_of id r)) [
  | inl hit ↦ absurd (cc (rw hit at e))
  | inr miss ↦ (ground (arith, eq_iff r.txn_id id), new_event-fresh id rs (rw miss at e))
]

other_key :
    (key : Option String) (r : Row)
    → has_key key r ≡ false
    → r.idempotency_key ≡ key
    → r.idempotency_key ≡ none
other_key none r miss same = same
other_key (some k) r miss same = absurd (ground (arith, eq_refl k))

new_key-fresh :
    (key : Option String) (rs : List Row)
    → first_where (has_key key) rs ≡ none
    → All (λ x. x ≡ key → x ≡ none) (keys rs)
unfolding first_where
new_key-fresh key [] e = tt
new_key-fresh key (r ∷ rs) e = elim (Bool-cases (has_key key r)) [
  | inl hit ↦ absurd (cc (rw hit at e))
  | inr miss ↦ (other_key key r miss, new_key-fresh key rs (rw miss at e))
]

found-Listed :
    (id : String) (es : List Event) (e : Event)
    → first_where (event_of id) es ≡ some e
    → Listed id (event_txn_ids es)
unfolding first_where
found-Listed id [] e found = cc
found-Listed id (x ∷ xs) e found = elim (Bool-cases (event_of id x)) [
  | inl hit ↦ rw hit
  | inr miss ↦ rw miss (found-Listed id xs e (rw miss at found))
]

Listed-snoc : (id y : String) (xs : List String) → Listed id xs → Listed id (xs ++ y ∷ [])
Listed-snoc id y [] l = cc
Listed-snoc id y (x ∷ xs) l = elim (Bool-cases (x == id)) [
  | inl hit ↦ rw hit
  | inr miss ↦ rw miss (Listed-snoc id y xs (rw miss at l))
]

-- A save: the row is new, and so is its event, unless the outbox had one.
pub saved-WellFormed :
    (h : Host) (txn : Value) (now : ℕ) (r : Row) (old new : Db)
    → IsSaved h txn now r old new
    → IsLeased r
    → WellFormed old
    → WellFormed new
saved-WellFormed h txn now r old new x l w =
    let ids = ap txn_ids x.row ∙ map-append (λ (r : Row). r.txn_id) old.transactions (r ∷ []) in
    let all_keys =
      ap keys x.row ∙ map-append (λ (r : Row). r.idempotency_key) old.transactions (r ∷ []) in
    let (events, grown) = outbox in
    record {
      distinct_ids =
          subst Distinct (sym ids)
            (Distinct-snoc _ _ w.distinct_ids (new_id-fresh r.txn_id old.transactions x.new_id));
      distinct_keys = subst DistinctKeys (sym all_keys) (
          DistinctKeys-snoc _ _ w.distinct_keys
            (new_key-fresh r.idempotency_key old.transactions x.fresh));
      recorded = subst (All (λ id. Listed id (event_txn_ids new.outbox_events))) (sym ids) (
          All-append _ (txn_ids old.transactions) _
            (All-imp _ _ (txn_ids old.transactions) grown w.recorded)
            (found-Listed r.txn_id new.outbox_events x.event.event.0 x.event.event.1, tt));
      distinct_events = events;
      leased =
          subst (All IsLeased) (sym x.row)
            (All-append IsLeased old.transactions _ w.leased (l, tt));
    }
  where
    outbox :
        Distinct (event_txn_ids new.outbox_events)
        × ((id : String)
            → Listed id (event_txn_ids old.outbox_events)
            → Listed id (event_txn_ids new.outbox_events))
    outbox = elim x.event.added [
      | inl same ↦ (
        subst (λ es. Distinct (event_txn_ids es)) (sym same) w.distinct_events,
        λ id. subst (λ es. Listed id (event_txn_ids es)) (sym same),
      )
      | inr (e, of_row, _, _, grown, unknown) ↦
          let more =
            ap event_txn_ids grown
            ∙ map-append (λ (e : Event). e.txn_id) old.outbox_events (e ∷ []) in
          (
            subst Distinct (sym more) (
                Distinct-snoc _ _ w.distinct_events (
                  subst (λ k. All (λ z. z ≢ k) (event_txn_ids old.outbox_events)) (sym of_row)
                    (new_event-fresh r.txn_id old.outbox_events unknown))),
            λ id l. subst (Listed id) (sym more) (Listed-snoc id e.txn_id _ l),
          )
    ]
