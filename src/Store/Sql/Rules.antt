-- ===== src/Store/Sql/Rules.antt =====
-- How to reason about a block of statements: what each one leaves, and a rule for a sequence.
use payment_sim.Store.Sql.{
  Fault, no_fault, not_run, answer_lost, Connection, Call, next_fault, answer, run_statement, query,
  autocommit, begin, commit, rollback, lift, ◌>>=◌, ◌>>◌, or_rollback, continue, rethrow,
  roll_back_on_throw,
}
use payment_sim.Prelude.{
  String, ◌≡◌, refl, ◌⊎◌, inl, inr, arith, any, Result, ok, throw, subst, sym, [], ap,
}

module _ {D A B : Type 0} where
  continue-rule :
      (P : Result B → Connection D → Type 0) (r : Result A) (f : A → Call D B) (s : Connection D)
      → ((e : String) → r ≡ throw e → P (throw e) s)
      → ((a : A) → r ≡ ok a → P (f a s).0 (f a s).1)
      → P (continue r f s).0 (continue r f s).1
  unfolding continue
  continue-rule P (ok a) f s thrown went = went a refl
  continue-rule P (throw e) f s thrown went = thrown e refl

  -- What holds after `m >>= f` holds after the error of `m`, or after `f`.
  pub >>=-rule :
      (P : Result B → Connection D → Type 0) (m : Call D A) (f : A → Call D B) (s : Connection D)
      → ((e : String) → (m s).0 ≡ throw e → P (throw e) (m s).1)
      → ((a : A) → (m s).0 ≡ ok a → P (f a (m s).1).0 (f a (m s).1).1)
      → P ((m >>= f) s).0 ((m >>= f) s).1
  unfolding ◌>>=◌
  >>=-rule P m f s thrown went = continue-rule P (m s).0 f (m s).1 thrown went

module _ {D A : Type 0} (q : D → Result (A × D)) (s : Connection D) where
  pub committed-query : (query q s).1.committed ≡ s.committed
  unfolding query
  committed-query = refl

  pub query-eq-ok : (a : A) → (query q s).0 ≡ ok a → q s.working ≡ ok (a, (query q s).1.working)
  unfolding query
  query-eq-ok a e = ran (next_fault s.faults) (q s.working) e
    where
      ran :
          (f : Fault) (r : Result (A × D))
          → (run_statement f s.working r).0 ≡ ok a
          → r ≡ ok (a, (run_statement f s.working r).1)
      ran no_fault (ok (b, db)) e = ground arith
      ran no_fault (throw m) e = cc
      ran not_run r e = cc
      ran answer_lost r e = cc

module _ {D A : Type 0} (q : D → Result (A × D)) (s : Connection D) where
  pub autocommit-eq-ok :
      (a : A) → (autocommit q s).0 ≡ ok a → q s.committed ≡ ok (a, (autocommit q s).1.committed)
  unfolding autocommit
  autocommit-eq-ok a e = ran (next_fault s.faults) (q s.committed) e
    where
      ran :
          (f : Fault) (r : Result (A × D))
          → (run_statement f s.committed r).0 ≡ ok a
          → r ≡ ok (a, (run_statement f s.committed r).1)
      ran no_fault (ok (b, db)) e = ground arith
      ran no_fault (throw m) e = cc
      ran not_run r e = cc
      ran answer_lost r e = cc

-- What holds before a statement of its own, and after it if it runs.
pub autocommit-rule :
    {D A : Type 0} (P : D → Type 0) (q : D → Result (A × D)) (s : Connection D)
    → P s.committed
    → ((a : A) (db : D) → q s.committed ≡ ok (a, db) → P db)
    → P (autocommit q s).1.committed
unfolding autocommit
autocommit-rule {D} {A} P q s old new = ran (next_fault s.faults) (q s.committed) new
  where
    ran :
        (f : Fault) (r : Result (A × D))
        → ((a : A) (db : D) → r ≡ ok (a, db) → P db)
        → P (run_statement f s.committed r).1
    ran not_run r k = old
    ran no_fault (ok (a, db)) k = k a db refl
    ran no_fault (throw e) k = old
    ran answer_lost (ok (a, db)) k = k a db refl
    ran answer_lost (throw e) k = old

module _ {D : Type 0} (s : Connection D) where
  pub committed-begin : (begin s).1.committed ≡ s.committed
  unfolding begin
  committed-begin = refl

  pub begin-eq-ok : (begin s).0 ≡ ok tt → (begin s).1.working ≡ s.committed
  unfolding begin
  begin-eq-ok e = ran (next_fault s.faults) e
    where
      ran :
          (f : Fault)
          → (run_statement {0} f s.working (ok (tt, s.committed))).0 ≡ ok tt
          → (run_statement {0} f s.working (ok (tt, s.committed))).1 ≡ s.committed
      ran no_fault e = refl
      ran not_run e = cc
      ran answer_lost e = cc

  pub commit-eq-ok : (commit s).0 ≡ ok tt → (commit s).1.committed ≡ s.working
  unfolding commit
  commit-eq-ok e = ran (next_fault s.faults) e
    where
      ran :
          (f : Fault)
          → (run_statement {0} f s.committed (ok (tt, s.working))).0 ≡ ok tt
          → (run_statement {0} f s.committed (ok (tt, s.working))).1 ≡ s.working
      ran no_fault e = refl
      ran not_run e = cc
      ran answer_lost e = cc

  -- A COMMIT may take effect although its answer is lost.
  pub committed-commit :
      ((commit s).1.committed ≡ s.committed) ⊎ ((commit s).1.committed ≡ s.working)
  unfolding commit
  committed-commit = ran (next_fault s.faults)
    where
      ran :
          (f : Fault)
          → ((run_statement {0} f s.committed (ok (tt, s.working))).1 ≡ s.committed)
            ⊎ ((run_statement {0} f s.committed (ok (tt, s.working))).1 ≡ s.working)
      ran no_fault = inr refl
      ran not_run = inl refl
      ran answer_lost = inr refl

pub or_rollback-rule :
    {D A : Type 0} (P : Result A → D → Type 0) (m : Call D A) (s : Connection D)
    → ((e e' : String) (db : D) → P (throw e) db → P (throw e') db)
    → P (m s).0 (m s).1.committed
    → P (or_rollback m s).0 (or_rollback m s).1.committed
unfolding or_rollback
or_rollback-rule {D} {A} P m s any h = go (m s).0 (m s).1 h
  where
    rethrown : (e : String) (db : D) (r : Result (Unit {0})) → P (throw e) db → P (rethrow e r) db
    rethrown e db (ok u) p = p
    rethrown e db (throw e') p = any e e' db p

    go :
        (r : Result A) (s' : Connection D)
        → P r s'.committed
        → P (roll_back_on_throw r s').0 (roll_back_on_throw r s').1.committed
    go (ok a) s' p = p
    go (throw e) s' p =
        unfold rollback in rethrown e s'.committed (answer (next_fault s'.faults) (ok tt)) p

-- The end of a transaction: COMMIT, and the answer.
pub finish-rule :
    {D A : Type 0} (P : Result A → D → Type 0) (x : A) (s : Connection D)
    → ((e : String) (db : D) → (db ≡ s.committed) ⊎ (db ≡ s.working) → P (throw e) db)
    → P (ok x) s.working
    → P ((commit >> lift (ok x)) s).0 ((commit >> lift (ok x)) s).1.committed
finish-rule P x s thrown done =
    >>=-rule (λ r s'. P r s'.committed) commit (λ _. lift (ok x)) s
      (λ e _. thrown e (commit s).1.committed (committed-commit s))
      (λ u e. subst (P (ok x)) (sym (commit-eq-ok s e)) done)

-- A call that succeeds, and what follows it.
pub >>=-ok :
    {D A B : Type 0} (m : Call D A) (f : A → Call D B) (s t : Connection D) (a : A)
    → m s ≡ (ok a, t)
    → (m >>= f) s ≡ f a t
unfolding ◌>>=◌
>>=-ok {D} {A} m f s t a e = ap (λ (r : Result A × Connection D). continue r.0 f r.1) e

pub or_rollback-ok :
    {D A : Type 0} (m : Call D A) (s t : Connection D) (a : A)
    → m s ≡ (ok a, t)
    → or_rollback m s ≡ (ok a, t)
unfolding or_rollback
or_rollback-ok {D} {A} m s t a e =
    ap (λ (r : Result A × Connection D). roll_back_on_throw r.0 r.1) e

-- A connection on which nothing fails.
abbrev pub steady : {D : Type 0} → D → D → Connection D
steady db w = record { committed = db; working = w; faults = [] }
