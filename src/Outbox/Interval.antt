-- ===== src/Outbox/Interval.antt =====
-- `startOutboxProcessor` of outbox/outboxProcessor.js: the interval that publishes.
use payment_sim.Recovery.Rounds.{IsGuarded, on_tick-IsGuarded, on_settled-IsGuarded}
use payment_sim.Outbox.{QueuedJob}
use payment_sim.Outbox.Publish.{Enqueue, process_outbox_events}
use payment_sim.Recovery.{Timer, on_tick, on_settled}
use payment_sim.Store.Sql.{Fault}
use payment_sim.Store.Tables.{Event, Db}
use payment_sim.Value.{Host}
use payment_sim.Prelude.{
  ℕ, String, ◌≡◌, refl, inl, inr, Bool, false, List, [], ◌∷◌, ◌++◌, arith, eqb, if◌then◌else◌,
  Bool-cases,
}

pub record Publisher : Type 0 where
  pub timer : Timer
  pub queue : List QueuedJob
  pub db : Db

pub data Moment : Type 0 where
  -- the interval calls its function
  due : Moment
  -- the call that awaits ends, with the rows that were locked, what the queue answered and the
  -- faults of the statements
  round_ends : (Event → Bool) → (Event → Enqueue) → List Fault → (now : ℕ) → Moment
  -- another process changes the tables or the queue
  elsewhere : (List QueuedJob → List QueuedJob) → (Db → Db) → Moment

unfoldable pub interval_step : Host → String → Moment → Publisher → Publisher
unfolding on_tick on_settled
interval_step h processor due s = record s { timer = on_tick s.timer }
interval_step h processor (round_ends locked outcome faults now) s =
    let (r, (queue, t)) =
      process_outbox_events h processor locked outcome now
        (s.queue, record { committed = s.db; working = s.db; faults = faults }) in
    if eqb s.timer.in_flight 0
    then s
    else record { timer = on_settled r s.timer; queue = queue; db = t.committed }
interval_step h processor (elsewhere change_queue change_db) s = record s {
  queue = change_queue s.queue;
  db = change_db s.db;
}

abbrev pub run_interval : Host → String → List Moment → Publisher → Publisher
run_interval h processor [] s = s
run_interval h processor (x ∷ xs) s = run_interval h processor xs (interval_step h processor x s)

pub run_interval-append :
    (h : Host) (processor : String) (xs ys : List Moment) (s : Publisher)
    → run_interval h processor (xs ++ ys) s
      ≡ run_interval h processor ys (run_interval h processor xs s)
run_interval-append h processor [] ys s = refl
run_interval-append h processor (x ∷ xs) ys s =
    run_interval-append h processor xs ys (interval_step h processor x s)

interval_step-IsGuarded :
    (h : Host) (processor : String) (x : Moment) (s : Publisher)
    → IsGuarded s.timer
    → IsGuarded (interval_step h processor x s).timer
unfolding interval_step
interval_step-IsGuarded h processor due s g = (on_tick-IsGuarded s.timer g).0
interval_step-IsGuarded h processor (round_ends locked outcome faults now) s g =
    elim (Bool-cases (eqb s.timer.in_flight 0)) [
      | inl idle ↦ rw idle g
      | inr busy ↦ rw busy (
          on_settled-IsGuarded
            (process_outbox_events h processor locked outcome now
              (s.queue, record { committed = s.db; working = s.db; faults = faults })).0
            s.timer g)
    ]
interval_step-IsGuarded h processor (elsewhere change_queue change_db) s g = g

-- At most one round is under way at a time.
pub run_interval-IsGuarded :
    (h : Host) (processor : String) (xs : List Moment) (s : Publisher)
    → IsGuarded s.timer
    → IsGuarded (run_interval h processor xs s).timer
run_interval-IsGuarded h processor [] s g = g
run_interval-IsGuarded h processor (x ∷ xs) s g =
    run_interval-IsGuarded h processor xs (interval_step h processor x s)
      (interval_step-IsGuarded h processor x s g)

-- A tick and the end of the round that it starts.
pub interval_round :
    (h : Host) (processor : String) (locked : Event → Bool) (outcome : Event → Enqueue)
    (faults : List Fault) (now : ℕ) (s : Publisher)
    → IsGuarded s.timer
    → let (r, (queue, t)) =
        process_outbox_events h processor locked outcome now
          (s.queue, record { committed = s.db; working = s.db; faults = faults }) in
      run_interval h processor (due ∷ round_ends locked outcome faults now ∷ []) s
      ≡ record { timer = on_settled r (on_tick s.timer); queue = queue; db = t.committed }
unfolding interval_step
interval_round h processor locked outcome faults now s g =
    let (_, busy) = on_tick-IsGuarded s.timer g in
    let awaits : eqb (on_tick s.timer).in_flight 0 ≡ false = ground arith in rw awaits refl
