-- ===== src/Tests/Recovery.antt =====
-- The recovery interval on a table with one stale transaction.
use payment_sim.Recovery.{new_timer, Happening, tick, query_ends, run_scheduler}
use payment_sim.Recovery.Rounds.{recovery_comes}
use payment_sim.Store.Tables.{Status, Row, Db}
use payment_sim.Store.Updates.{stale}
use payment_sim.Store.Sql.{no_fault, not_run}
use payment_sim.Tests.Samples.{empty_db, sample_row}
use payment_sim.Prelude.{◌≡◌, false, some, List, [], ◌∷◌, ◌++◌, All}

abbrev stale_row : Row
stale_row = record (sample_row Status.processing) {
  lease_expires_at = some 1000;
  processor_instance_id = some "worker-1";
}

abbrev stale_db : Db
stale_db = record empty_db { transactions = stale_row ∷ [] }

-- The first query is lost; a tick comes while it awaits.
abbrev bad_round : List Happening
bad_round = tick ∷ tick ∷ query_ends not_run 50000 ∷ []

recovery_comes_example :
    let s =
      run_scheduler 120000
        (bad_round ++ tick ∷ query_ends no_fault 200000 ∷ [])
        (record { timer = new_timer; db = stale_db }) in
    All (λ r. stale 120000 200000 r ≡ false) s.db.transactions × (s.timer.running ≡ false)
recovery_comes_example = recovery_comes 120000 200000 bad_round stale_db
