-- ===== src/Jobs/Outcome.antt =====
-- What a claimed job ends with.
use payment_sim.Jobs.{Decision, fail, finalize, conclude, decide_processed, decide}
use payment_sim.Value.{Value, Items, Host}
use payment_sim.Config.{Config}
use payment_sim.Systems.{
  Route, route_transaction, Processed, process_transaction, Reply, success, balance, is_declined,
  dispatch_route,
}
use payment_sim.Systems.Outcome.{
  has_amount, has_failing_amount, is_served, is_declined_by_processor, is_failed_by_processor,
  processor_declines, processor_fails, dispatch_declines,
}
use payment_sim.Store.Tables.{Status, completed}
use payment_sim.Prelude.{
  String, ◌≡◌, refl, ◌∙◌, ◌⊎◌, inl, inr, Bool, true, false, not, ◌&&◌, some, arith,
}

-- A decision that is recorded completes the transaction or declines it, and its updates say so.
abbrev pub IsConclusive : Decision → Type 0
IsConclusive (fail reason) = Unit
IsConclusive (finalize t u) = (u.status ≡ some t) × ((t ≡ completed) ⊎ (t ≡ Status.declined))

conclude-IsConclusive :
    (timestamp : String) (timeline : Items) (route : Route) (reply : Reply)
    → IsConclusive (conclude timestamp timeline route reply)
unfolding conclude
conclude-IsConclusive timestamp timeline route Reply.approved = (refl, inl refl)
conclude-IsConclusive timestamp timeline route (Reply.declined reason) = (refl, inr refl)
conclude-IsConclusive timestamp timeline route (success system details) = (refl, inl refl)
conclude-IsConclusive timestamp timeline route (balance n) = (refl, inl refl)

processed-IsConclusive :
    (h : Host) (cfg : Config) (txn : Value) (timestamp : String) (timeline : Items) (p : Processed)
    → IsConclusive (decide_processed h cfg txn timestamp timeline p)
unfolding decide_processed
processed-IsConclusive h cfg txn timestamp timeline (Processed.failed reason) = tt
processed-IsConclusive h cfg txn timestamp timeline (Processed.declined reason) = (refl, inr refl)
processed-IsConclusive h cfg txn timestamp timeline Processed.approved =
    conclude-IsConclusive timestamp timeline (route_transaction txn)
      (dispatch_route h cfg txn (route_transaction txn))

pub decide-IsConclusive :
    (h : Host) (cfg : Config) (txn : Value) (timestamp : String) (timeline : Items)
    → IsConclusive (decide h cfg txn timestamp timeline)
unfolding decide
decide-IsConclusive h cfg txn timestamp timeline =
    processed-IsConclusive h cfg txn timestamp timeline (process_transaction h txn)

abbrev pub completes : Decision → Bool
completes (finalize Status.completed u) = true
completes d = false

abbrev pub fails : Decision → Bool
fails (fail reason) = true
fails d = false

conclude-completes :
    (timestamp : String) (timeline : Items) (route : Route) (reply : Reply)
    → (completes (conclude timestamp timeline route reply) ≡ not (is_declined reply))
      × (fails (conclude timestamp timeline route reply) ≡ false)
unfolding conclude
conclude-completes timestamp timeline route Reply.approved = (refl, refl)
conclude-completes timestamp timeline route (Reply.declined reason) = (refl, refl)
conclude-completes timestamp timeline route (success system details) = (refl, refl)
conclude-completes timestamp timeline route (balance n) = (refl, refl)

processed-completes :
    (h : Host) (cfg : Config) (txn : Value) (timestamp : String) (timeline : Items) (p : Processed)
    → let declines = is_declined (dispatch_route h cfg txn (route_transaction txn)) in
      let d = decide_processed h cfg txn timestamp timeline p in
      (completes d
        ≡ (not (is_declined_by_processor p) && not (is_failed_by_processor p) && not declines))
      × (fails d ≡ is_failed_by_processor p)
unfolding decide_processed
processed-completes h cfg txn timestamp timeline (Processed.failed reason) = (refl, refl)
processed-completes h cfg txn timestamp timeline (Processed.declined reason) = (refl, refl)
processed-completes h cfg txn timestamp timeline Processed.approved =
    conclude-completes timestamp timeline (route_transaction txn)
      (dispatch_route h cfg txn (route_transaction txn))

-- What becomes of a claimed transaction, in one condition each. Its processing fails, and the job
-- throws, exactly if it has an amount (a positive one, or it is a balance inquiry) and that is the
-- amount of the simulated failure. It is finalized as COMPLETED exactly if it has an amount, not
-- that one, and is served: an internal one is a balance inquiry, or its PIN was verified and it is a
-- reversal or does not exceed the balance; another one goes to one of the two networks. What is
-- finalized otherwise is finalized as DECLINED.
pub decide_outcome :
    (h : Host) (cfg : Config) (txn : Value) (timestamp : String) (timeline : Items)
    → let d = decide h cfg txn timestamp timeline in
      (fails d ≡ (has_amount h txn && has_failing_amount txn))
      × (completes d ≡ (has_amount h txn && not (has_failing_amount txn) && is_served h cfg txn))
      × IsConclusive d
unfolding decide
decide_outcome h cfg txn timestamp timeline =
    let (complete, broken) =
      processed-completes h cfg txn timestamp timeline (process_transaction h txn) in
    (
      broken ∙ processor_fails h txn,
      complete
          ∙ rw (processor_declines h txn, processor_fails h txn, dispatch_declines h cfg txn)
              (three (has_amount h txn) (has_failing_amount txn) (is_served h cfg txn)),
      decide-IsConclusive h cfg txn timestamp timeline,
    )
  where
    three : (a b c : Bool) → (not (not a) && not (a && b) && not (not c)) ≡ (a && not b && c)
    three a b c = ground arith
