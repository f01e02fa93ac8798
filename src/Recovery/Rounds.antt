-- ===== src/Recovery/Rounds.antt =====
-- The rounds of the recovery interval.
use payment_sim.Recovery.{
  Timer, new_timer, on_tick, on_settled, run_transaction_recovery_once, Scheduler, Happening, tick,
  query_ends, elsewhere, scheduler_step, run_scheduler,
}
use payment_sim.Store.Sql.{no_fault, autocommit}
use payment_sim.Store.Tables.{Row, Db, update_where}
use payment_sim.Store.Updates.{stale, recovered, recover_stale_processing_transactions}
use payment_sim.Prelude.{
  ℕ, ◌<◌, String, ◌≡◌, refl, inl, inr, Bool, true, false, List, [], ◌∷◌, ◌++◌, arith, eqb,
  if◌then◌else◌, Bool-cases, All, Result,
}

-- A call awaits exactly while `running` is set, and never more than one.
abbrev pub IsGuarded : Timer → Type 0
IsGuarded t = t.in_flight ≡ (if t.running then 1 else 0)

pub on_tick-IsGuarded :
    (t : Timer) → IsGuarded t → IsGuarded (on_tick t) × (0 < (on_tick t).in_flight)
unfolding on_tick
on_tick-IsGuarded t g = go t.running t.in_flight t.errors g
  where
    go :
        (running : Bool) (in_flight : ℕ) (errors : List String)
        → let t : Timer = record { running = running; in_flight = in_flight; errors = errors } in
          IsGuarded t → IsGuarded (on_tick t) × (0 < (on_tick t).in_flight)
    go true in_flight errors g = (g, omega (arith, g))
    go false in_flight errors g = (omega (arith, g), omega arith)

pub on_settled-IsGuarded {ℓ} :
    {A : Type ℓ} (r : Result A) (t : Timer) → IsGuarded t → IsGuarded (on_settled r t)
unfolding on_settled
on_settled-IsGuarded r t g = elim (Bool-cases t.running) [
  | inl busy ↦ omega (arith, rw busy at g)
  | inr free ↦ omega (arith, rw free at g)
]

step-IsGuarded :
    (timeout : ℕ) (x : Happening) (s : Scheduler)
    → IsGuarded s.timer
    → IsGuarded (scheduler_step timeout x s).timer
unfolding scheduler_step
step-IsGuarded timeout tick s g = (on_tick-IsGuarded s.timer g).0
step-IsGuarded timeout (query_ends fault now) s g = elim (Bool-cases (eqb s.timer.in_flight 0)) [
  | inl idle ↦ rw idle g
  | inr busy ↦ rw busy (
      on_settled-IsGuarded
        (run_transaction_recovery_once timeout now
          (record { committed = s.db; working = s.db; faults = fault ∷ [] })).0
        s.timer g)
]
step-IsGuarded timeout (elsewhere change) s g = g

-- At most one recovery is under way at a time, however ticks and ends of queries follow.
pub run_scheduler-IsGuarded :
    (timeout : ℕ) (xs : List Happening) (s : Scheduler)
    → IsGuarded s.timer
    → IsGuarded (run_scheduler timeout xs s).timer
run_scheduler-IsGuarded timeout [] s g = g
run_scheduler-IsGuarded timeout (x ∷ xs) s g =
    run_scheduler-IsGuarded timeout xs (scheduler_step timeout x s) (step-IsGuarded timeout x s g)

none_stale :
    (timeout now : ℕ) (rows : List Row)
    → All (λ r. stale timeout now r ≡ false) (update_where (stale timeout now) (recovered now) rows)
unfolding update_where
none_stale timeout now [] = tt
none_stale timeout now (r ∷ rows) = (
  elim (Bool-cases (stale timeout now r)) [
    | inl hit ↦ rw hit (unfold recovered in refl)
    | inr miss ↦ rw miss miss
  ],
  none_stale timeout now rows,
)

run-append :
    (timeout : ℕ) (xs ys : List Happening) (s : Scheduler)
    → run_scheduler timeout (xs ++ ys) s ≡ run_scheduler timeout ys (run_scheduler timeout xs s)
run-append timeout [] ys s = refl
run-append timeout (x ∷ xs) ys s = run-append timeout xs ys (scheduler_step timeout x s)

-- Whatever happened before, also rounds that failed, the next tick is followed by a recovery: when
-- its query works, no transaction is left whose lease has expired, and the interval is free again.
pub recovery_comes :
    (timeout now : ℕ) (before : List Happening) (db : Db)
    → let s =
        run_scheduler timeout
          (before ++ tick ∷ query_ends no_fault now ∷ [])
          (record { timer = new_timer; db = db }) in
      All (λ r. stale timeout now r ≡ false) s.db.transactions × (s.timer.running ≡ false)
unfolding scheduler_step run_transaction_recovery_once autocommit
    recover_stale_processing_transactions on_settled
recovery_comes timeout now before db =
    let start : Scheduler = record { timer = new_timer; db = db } in
    let s = run_scheduler timeout before start in
    let guarded = run_scheduler-IsGuarded timeout before start refl in
    let (_, busy) = on_tick-IsGuarded s.timer guarded in
    let awaits : eqb (on_tick s.timer).in_flight 0 ≡ false = ground (arith) in
    rw (run-append timeout before (tick ∷ query_ends no_fault now ∷ []) start, awaits)
      (none_stale timeout now s.db.transactions, refl)
