-- ===== src/Store/Sql.antt =====
-- One connection in a transaction: `client.query` between BEGIN and COMMIT or ROLLBACK.
-- A statement may fail before it runs, or run and lose its answer; a list of faults says which.
pub mod Rules
use payment_sim.Store.Tables.{Db}
use payment_sim.Prelude.{String, List, [], ◌∷◌, Result, ok, throw}

pub data Fault : Type 0 where
  no_fault : Fault
  not_run : Fault
  answer_lost : Fault

-- What is in the database, by its state `D`: `working` is what the open transaction sees; the other
-- connections see `committed`.
pub record Connection (D : Type 0) : Type 0 where
  pub committed : D
  pub working : D
  pub faults : List Fault

abbrev pub Call : Type 0 → Type 0 → Type 0
Call D A = Connection D → Result A × Connection D

-- a connection to the tables of the program
abbrev pub Session : Type 0
Session = Connection Db

abbrev pub Sql : Type 0 → Type 0
Sql A = Call Db A

abbrev pub next_fault : List Fault → Fault
next_fault [] = no_fault
next_fault (f ∷ fs) = f

abbrev pub later_faults : List Fault → List Fault
later_faults [] = []
later_faults (f ∷ fs) = fs

abbrev pub statement_lost {ℓ} : {A : Type ℓ} → Result A
statement_lost = throw "Connection terminated unexpectedly"

-- the answer of a statement that ran, unless it is lost
abbrev pub answer {ℓ} : {A : Type ℓ} → Fault → Result A → Result A
answer no_fault r = r
answer _ r = statement_lost

-- A statement that fails by itself, on a constraint, changes nothing.
abbrev pub after {ℓ} : {D : Type 0} {A : Type ℓ} → D → Result (A × D) → Result A × D
after db (ok (a, db')) = (ok a, db')
after db (throw e) = (throw e, db)

abbrev pub run_statement {ℓ} : {D : Type 0} {A : Type ℓ} → Fault → D → Result (A × D) → Result A × D
run_statement not_run db r = (statement_lost, db)
run_statement f db r = let (a, db') = after db r in (answer f a, db')

unfoldable pub query : {D A : Type 0} → (D → Result (A × D)) → Call D A
query q s =
    let (r, db) = run_statement (next_fault s.faults) s.working (q s.working) in
    (r, record s { working = db; faults = later_faults s.faults })

-- A statement outside BEGIN and COMMIT is a transaction of its own.
unfoldable pub autocommit : {D A : Type 0} → (D → Result (A × D)) → Call D A
autocommit q s =
    let (r, db) = run_statement (next_fault s.faults) s.committed (q s.committed) in
    (r, record s { committed = db; working = db; faults = later_faults s.faults })

module _ {D : Type 0} where
  unfoldable pub begin : Call D (Unit {0})
  begin s =
      let (r, db) = run_statement (next_fault s.faults) s.working (ok (tt, s.committed)) in
      (r, record s { working = db; faults = later_faults s.faults })

  unfoldable pub commit : Call D (Unit {0})
  commit s =
      let (r, db) = run_statement (next_fault s.faults) s.committed (ok (tt, s.working)) in
      (r, record s { committed = db; faults = later_faults s.faults })

  -- The server drops the transaction also when the statement does not reach it.
  unfoldable pub rollback : Call D (Unit {0})
  rollback s = (
    answer (next_fault s.faults) (ok tt),
    record s { working = s.committed; faults = later_faults s.faults },
  )

  -- What is thrown between two statements.
  abbrev pub lift : {A : Type 0} → Result A → Call D A
  lift r s = (r, s)

  continue : {A B : Type 0} → Result A → (A → Call D B) → Call D B
  continue (ok a) f s = f a s
  continue (throw e) f s = (throw e, s)

  infixl 5 ◌>>=◌ ◌>>◌
  unfoldable pub ◌>>=◌ : {A B : Type 0} → Call D A → (A → Call D B) → Call D B
  unfolding continue
  ◌>>=◌ m f s = let (r, s') = m s in continue r f s'

  abbrev pub ◌>>◌ : {B : Type 0} → Call D (Unit {0}) → Call D B → Call D B
  m >> n = m >>= λ _. n

-- the error that leaves a `catch` block: that of ROLLBACK, if ROLLBACK throws
abbrev rethrow {ℓ} : {A : Type ℓ} → String → Result (Unit {0}) → Result A
rethrow e (ok _) = throw e
rethrow e (throw e') = throw e'

-- `try { m } catch (error) { await ROLLBACK; throw error }`
abbrev roll_back_on_throw : {D A : Type 0} → Result A → Connection D → Result A × Connection D
roll_back_on_throw (ok a) s = (ok a, s)
roll_back_on_throw (throw e) s = let (r, s') = rollback s in (rethrow e r, s')

unfoldable pub or_rollback : {D A : Type 0} → Call D A → Call D A
or_rollback m s = let (r, s') = m s in roll_back_on_throw r s'
