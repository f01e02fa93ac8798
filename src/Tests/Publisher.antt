-- ===== src/Tests/Publisher.antt =====
-- Rounds of the outbox publisher on small tables.
use payment_sim.Outbox.{
  recover_stale_outbox_events, pick_events, claimed_event, claim_outbox_events, sent_event,
  returned_event,
}
use payment_sim.Outbox.Publish.{
  added, refused, mark_event, publish_event, publish_events, select_events, claim_in_transaction,
  recover_events_statement, process_outbox_events,
}
use payment_sim.Outbox.Taken.{waits}
use payment_sim.Outbox.Rows.{SentOrSame, UniqueIds}
use payment_sim.Outbox.Rounds.{claim_in_transaction-ClaimEnsures}
use payment_sim.Outbox.Interval.{Publisher, Moment, due, round_ends, interval_step, run_interval}
use payment_sim.Outbox.Drain.{calm_rounds, outbox_drains}
use payment_sim.Recovery.{new_timer}
use payment_sim.Store.Tables.{pending, sent, Event, Db, update_where}
use payment_sim.Store.Sql.{
  no_fault, not_run, answer_lost, Session, query, autocommit, begin, commit, rollback, ◌>>=◌,
  or_rollback,
}
use payment_sim.Store.Sql.Rules.{steady}
use payment_sim.Store.Save.Statements.{new_event}
use payment_sim.Value.{end, obj}
use payment_sim.Tests.Samples.{small_host, empty_db}
use payment_sim.Prelude.{
  ◌≡◌, refl, ◌⊎◌, false, none, List, [], ◌∷◌, map, arith, eqb, if◌then◌else◌, All,
}

abbrev first_event : Event
first_event = new_event 1 "txn-1" (obj end) 1000

abbrev second_event : Event
second_event = new_event 2 "txn-2" (obj end) 1100

abbrev two_waiting : Db
two_waiting = record empty_db { outbox_events = first_event ∷ second_event ∷ [] }

-- The answer to the UPDATE is lost, so the claim is rolled back.
abbrev broken_claim : Session
broken_claim = record {
  committed = two_waiting;
  working = two_waiting;
  faults = no_fault ∷ no_fault ∷ answer_lost ∷ [];
}

claim_in_transaction-ClaimEnsures_example :
    (two_waiting ≡ two_waiting)
    ⊎ (two_waiting ≡ (claim_outbox_events 1 "publisher-1" none (λ e. false) 2000 two_waiting).1)
unfolding claim_in_transaction select_events query begin commit rollback or_rollback ◌>>=◌
    pick_events
claim_in_transaction-ClaimEnsures_example =
    claim_in_transaction-ClaimEnsures 1 "publisher-1" none (λ e. false) 2000 broken_claim

-- The first round loses its BEGIN; then two ticks come before a round ends.
abbrev rough_start : List Moment
rough_start =
    due ∷ round_ends (λ e. false) (λ e. added) (no_fault ∷ not_run ∷ []) 1500 ∷ due ∷ due ∷ []

abbrev started : Publisher
started =
    run_interval small_host "publisher-1" rough_start
      (record { timer = new_timer; queue = []; db = two_waiting })

two-UniqueIds : UniqueIds two_waiting.outbox_events
two-UniqueIds = (
  (λ e. refl, (λ e. absurd (omega (arith, e)), tt)),
  ((λ e. absurd (omega (arith, e)), (λ e. refl, tt)), tt),
)

outbox_drains_example :
    let db' = (run_interval small_host "publisher-1" (calm_rounds (2000 ∷ [])) started).db in
    All (λ e. waits e ≡ false) db'.outbox_events
    × SentOrSame two_waiting.outbox_events db'.outbox_events
unfolding interval_step process_outbox_events recover_events_statement recover_stale_outbox_events
    claim_in_transaction begin ◌>>=◌ autocommit update_where or_rollback rollback
outbox_drains_example =
    outbox_drains small_host "publisher-1" rough_start (2000 ∷ []) [] two_waiting (refl, (refl, tt))
      two-UniqueIds (omega arith)

-- The queue refuses the first job: its event waits again, the second is sent.
one_refused :
    let (r, (queue, s)) =
      process_outbox_events small_host "publisher-1"
        (λ e. false)
        (λ e. if eqb e.id 1 then refused "no connection" else added)
        2000
        ([], steady two_waiting two_waiting) in
    map (λ (e : Event). e.status) s.committed.outbox_events ≡ pending ∷ sent ∷ []
unfolding process_outbox_events recover_events_statement recover_stale_outbox_events
    claim_in_transaction select_events query begin commit or_rollback ◌>>=◌ pick_events
    publish_events publish_event mark_event autocommit sent_event returned_event claimed_event
    update_where
one_refused = refl
