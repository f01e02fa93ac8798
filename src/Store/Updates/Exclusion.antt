-- ===== src/Store/Updates/Exclusion.antt =====
-- One worker at a time: claims and finalizations of the same transaction.
use payment_sim.Store.Tables.{Row, Db, update_where, first_where, returned, is_accepted}
use payment_sim.Store.Updates.{
  Updates, update_transactions, claimable, claimed, start_transaction_processing, held_by,
  finalized, finalize_transaction_processing,
}
use payment_sim.Store.Save.Statements.{has_id}
use payment_sim.Value.{Items}
use payment_sim.Prelude.{
  ℕ, String, ◌≡◌, refl, ap, subst, ◌≢◌, inl, inr, Bool, true, false, Option, none, some, List, [],
  ◌∷◌, map, arith, eq_iff, Bool-cases, Option-cases, All, All-imp,
}

first_where-none {ℓ} :
    {A : Type ℓ} (p : A → Bool) (rs : List A) → All (λ r. p r ≡ false) rs → first_where p rs ≡ none
unfolding first_where
first_where-none p [] h = refl
first_where-none p (r ∷ rs) h = rw h.0 (first_where-none p rs h.1)

update_where-none {ℓ} :
    {A : Type ℓ} (p : A → Bool) (f : A → A) (rs : List A)
    → All (λ r. p r ≡ false) rs
    → update_where p f rs ≡ rs
unfolding update_where
update_where-none p f [] h = refl
update_where-none p f (r ∷ rs) h = rw h.0 (ap (◌∷◌ r) (update_where-none p f rs h.1))

-- A statement whose WHERE clause holds of no row answers nothing and changes nothing.
pub update_transactions-none :
    (p : Row → Bool) (f : Row → Row) (db : Db)
    → All (λ r. p r ≡ false) db.transactions
    → update_transactions p f db ≡ (none, db)
unfolding update_transactions returned
update_transactions-none p f db h =
    rw (first_where-none p db.transactions h, returned)
      (ap (λ (rows : List Row). (none, record db { transactions = rows }))
        (update_where-none p f db.transactions h))

-- What an UPDATE makes of each row.
pub All-after {ℓ} :
    {A : Type ℓ} (p : A → Bool) (f : A → A) (Q P : A → Type 0) (rs : List A)
    → ((r : A) → Q r → p r ≡ true → P (f r))
    → ((r : A) → Q r → p r ≡ false → P r)
    → All Q rs
    → All P (update_where p f rs)
unfolding update_where
All-after p f Q P [] hit miss h = tt
All-after p f Q P (r ∷ rs) hit miss h =
    let rest = All-after p f Q P rs hit miss h.1 in
    elim (Bool-cases (p r)) [ inl b ↦ rw b (hit r h.0 b, rest) | inr b ↦ rw b (miss r h.0 b, rest) ]

pub All-trivial {ℓ} : {A : Type ℓ} (rs : List A) → All (λ r. Unit {0}) rs
All-trivial [] = tt
All-trivial (r ∷ rs) = (tt, All-trivial rs)

-- Distinct ids, as the unique constraint on `txn_id` keeps them.
abbrev pub Distinct : List String → Type 0
Distinct [] = Unit
Distinct (x ∷ xs) = All (λ y. x ≢ y) xs × Distinct xs

abbrev pub txn_ids : List Row → List String
txn_ids = map (λ r. r.txn_id)

-- Rows whose ids are others than `id`.
others :
    (id : String) (rs : List Row)
    → All (λ y. id ≢ y) (txn_ids rs)
    → All (λ r. has_id id r ≡ false) rs
others id [] h = tt
others id (r ∷ rs) h = (ground (arith, eq_iff r.txn_id id, h.0), others id rs h.1)

-- With distinct ids, a claim that found a row found the only one with that id.
only_row :
    (id : String) (rs : List Row) (r : Row)
    → Distinct (txn_ids rs)
    → first_where (claimable id) rs ≡ some r
    → All (λ x. has_id id x ≡ true → is_accepted x.status ≡ true) rs
unfolding first_where
only_row id [] r d e = tt
only_row id (x ∷ xs) r d e =
    let later = only_row id xs r d.1 in
    let absent = λ (same : x.txn_id ≡ id).
      others id xs (subst (λ k. All (λ y. k ≢ y) (txn_ids xs)) same d.0) in
    elim (Bool-cases (has_id id x)) [
      | inr differs ↦ (λ same. cc, later (rw differs at e))
      | inl same ↦
          let rest = absent ((eq_iff x.txn_id id).0 same) in
          elim (Bool-cases (is_accepted x.status)) [
            | inl yes_accepted ↦ (λ _. yes_accepted, All-imp _ _ xs (λ y n t. cc) rest)
            | inr busy ↦
                let found : first_where (claimable id) xs ≡ some r = rw (same, busy) at e in
                let empty = first_where-none (claimable id) xs (
                  All-imp (λ y. has_id id y ≡ false) (λ y. claimable id y ≡ false) xs (λ y n. rw n)
                    rest) in
                absurd (cc (empty, found))
          ]
    ]

pub claimable_of_returned :
    (id : String) (f : Row → Row) (rs : List Row) (r : Row)
    → returned (claimable id) f rs ≡ some r
    → (x : Row) × (first_where (claimable id) rs ≡ some x)
unfolding returned
claimable_of_returned id f rs r e = elim (Option-cases (first_where (claimable id) rs)) [
  | inl missing ↦ absurd (cc (rw (missing, returned) at e))
  | inr found ↦ found
]

not_held :
    (id second : String) (y : Row)
    → (has_id id y ≡ true → is_accepted y.status ≡ true)
    → claimable id y ≡ false
    → held_by id second y ≡ false
not_held id second y only miss = elim (Bool-cases (has_id id y)) [
  | inl same ↦ absurd (cc (rw (same, only same) at miss))
  | inr differs ↦ rw differs
]

claimed_not_held :
    (id first second : String) (timeline : Option Items) (lease_ms now : ℕ) (y : Row)
    → first ≢ second
    → held_by id second (claimed first timeline lease_ms now y) ≡ false
unfolding claimed
claimed_not_held id first second timeline lease_ms now y n = ground (arith, eq_iff first second)

claim_excludes :
    (id first second : String) (timeline : Option Items) (lease_ms now : ℕ) (db : Db) (r : Row)
    → Distinct (txn_ids db.transactions)
    → (start_transaction_processing id first timeline lease_ms now db).0 ≡ some r
    → first ≢ second
    → All
        (λ y. held_by id second y ≡ false)
        (start_transaction_processing id first timeline lease_ms now db).1.transactions
unfolding start_transaction_processing
claim_excludes id first second timeline lease_ms now db r d e n =
    let (x, found) =
      claimable_of_returned id (claimed first timeline lease_ms now) db.transactions r e in
    All-after (claimable id) (claimed first timeline lease_ms now)
      (λ y. has_id id y ≡ true → is_accepted y.status ≡ true) (λ y. held_by id second y ≡ false)
      db.transactions (λ y _ hit. claimed_not_held id first second timeline lease_ms now y n)
      (λ y only miss. not_held id second y only miss) (only_row id db.transactions x d found)

-- Of two workers that take the same job, only the one whose claim found the transaction can
-- finalize it: the other's finalization is refused and changes no row.
pub finalize_by_other :
    (id first second : String) (timeline : Option Items) (lease_ms now later : ℕ) (u : Updates)
    (db db' : Db) (r : Row)
    → Distinct (txn_ids db.transactions)
    → start_transaction_processing id first timeline lease_ms now db ≡ (some r, db')
    → first ≢ second
    → finalize_transaction_processing id second u later db' ≡ (none, db')
unfolding finalize_transaction_processing
finalize_by_other id first second timeline lease_ms now later u db db' r d e n =
    let answer : (start_transaction_processing id first timeline lease_ms now db).0 ≡ some r =
      ap (λ (p : Option Row × Db). p.0) e in
    update_transactions-none (held_by id second) (finalized u later) db' (
      subst (λ (x : Db). All (λ y. held_by id second y ≡ false) x.transactions)
        (ap (λ (p : Option Row × Db). p.1) e)
        (claim_excludes id first second timeline lease_ms now db r d answer n))
