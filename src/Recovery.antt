-- ===== src/Recovery.antt =====
-- recovery/transactionRecovery.js: the interval that recovers stale transactions. `setInterval`
-- calls its function at every tick, also while an earlier call still awaits its query.
pub mod Rounds
use payment_sim.Store.Sql.{Fault, Sql, query, autocommit, ◌>>=◌, ◌>>◌}
use payment_sim.Store.Tables.{Db}
use payment_sim.Store.Updates.{recover_stale_processing_transactions}
use payment_sim.Prelude.{
  ℕ, ◌+◌, ◌-◌, String, Bool, true, false, Option, List, [], ◌∷◌, ◌++◌, eqb, if◌then◌else◌, Result,
  throw, ok,
}

-- The variable of the closure, the calls that await, and the logged errors.
pub record Timer : Type 0 where
  pub running : Bool
  pub in_flight : ℕ
  pub errors : List String

abbrev pub new_timer : Timer
new_timer = record { running = false; in_flight = 0; errors = [] }

-- up to the `await`
unfoldable pub on_tick : Timer → Timer
on_tick t = if t.running then t else record t { running = true; in_flight = t.in_flight + 1 }

abbrev pub error_message {ℓ} : {A : Type ℓ} → Result A → List String
error_message (ok a) = []
error_message (throw e) = e ∷ []

-- `catch` and `finally`
unfoldable pub on_settled {ℓ} : {A : Type ℓ} → Result A → Timer → Timer
on_settled r t = record t {
  running = false;
  in_flight = t.in_flight - 1;
  errors = t.errors ++ error_message r;
}

-- `recoverStaleProcessingTransactions`, as a query of its own
unfoldable pub run_transaction_recovery_once : ℕ → ℕ → Sql (List (String × Option String))
run_transaction_recovery_once timeout now =
    autocommit (λ db. ok (recover_stale_processing_transactions timeout now db))

pub record Scheduler : Type 0 where
  pub timer : Timer
  pub db : Db

pub data Happening : Type 0 where
  tick : Happening
  -- the query of the call that awaits ends
  query_ends : Fault → (now : ℕ) → Happening
  -- another process changes the tables
  elsewhere : (Db → Db) → Happening

-- the interval of `startTransactionRecoveryScheduler({ staleTimeoutMs })`
unfoldable pub scheduler_step : ℕ → Happening → Scheduler → Scheduler
unfolding on_tick on_settled run_transaction_recovery_once
scheduler_step timeout tick s = record s { timer = on_tick s.timer }
scheduler_step timeout (query_ends fault now) s =
    let (r, t) =
      run_transaction_recovery_once timeout now
        (record { committed = s.db; working = s.db; faults = fault ∷ [] }) in
    if eqb s.timer.in_flight 0 then s else record { timer = on_settled r s.timer; db = t.committed }
scheduler_step timeout (elsewhere change) s = record s { db = change s.db }

abbrev pub run_scheduler : ℕ → List Happening → Scheduler → Scheduler
run_scheduler timeout [] s = s
run_scheduler timeout (x ∷ xs) s = run_scheduler timeout xs (scheduler_step timeout x s)
