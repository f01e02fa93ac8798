-- ===== src/Outbox/Drain.antt =====
-- The outbox is emptied: what rounds in which nothing fails leave.
use payment_sim.Outbox.Steady.{always_added, add_jobs, with_events, Idle, round_steady}
use payment_sim.Outbox.{claimable_event, pick_events, QueuedJob}
use payment_sim.Outbox.Taken.{waits, waits_after_claim}
use payment_sim.Outbox.Rows.{
  none_locked, UniqueIds, rows-UniqueIds, picked_waits, round_row, SentOrSame, SentOrSame-refl,
  SentOrSame-trans, rows-SentOrSame, rows-idle, rows_waiting,
}
use payment_sim.Outbox.Interval.{
  Publisher, Moment, due, round_ends, run_interval, run_interval-IsGuarded, interval_round,
}
use payment_sim.Recovery.{new_timer, on_tick, on_settled}
use payment_sim.Recovery.Rounds.{IsGuarded, on_tick-IsGuarded, on_settled-IsGuarded}
use payment_sim.Store.Sql.{Session}
use payment_sim.Store.Tables.{Event, Db}
use payment_sim.Value.{Host}
use payment_sim.Prelude.{
  ℕ, ◌-◌, ◌*◌, ◌≤◌, String, ◌≡◌, refl, sym, ap, ◌∙◌, subst, inl, inr, false, none, List, [], ◌∷◌,
  map, arith, Bool-cases, length, take, select, All, Result, ok,
}

none_waits : (xs : List Event) → length (select waits xs) ≤ 0 → All (λ e. waits e ≡ false) xs
none_waits [] h = tt
none_waits (x ∷ xs) h = elim (Bool-cases (waits x)) [
  | inl hit ↦ absurd (omega (arith, rw hit at h))
  | inr miss ↦ (miss, none_waits xs (rw miss at h))
]

-- Ticks, and rounds in which nothing fails, at these times.
abbrev pub calm_rounds : List ℕ → List Moment
calm_rounds [] = []
calm_rounds (now ∷ nows) = due ∷ round_ends none_locked always_added [] now ∷ calm_rounds nows

calm_rounds-drain :
    (h : Host) (processor : String) (nows : List ℕ) (s : Publisher)
    → IsGuarded s.timer
    → Idle s.db
    → UniqueIds s.db.outbox_events
    → length (select waits s.db.outbox_events) ≤ 10 * length nows
    → let db' = (run_interval h processor (calm_rounds nows) s).db in
      All (λ e. waits e ≡ false) db'.outbox_events × SentOrSame s.db.outbox_events db'.outbox_events
calm_rounds-drain h processor [] s g idle unique few =
    (none_waits s.db.outbox_events (omega (arith, few)), SentOrSame-refl s.db.outbox_events)
calm_rounds-drain h processor (now ∷ nows) s g idle unique few =
    let picked = pick_events 10 none none_locked s.db in
    let db' = with_events s.db (map (round_row processor now picked) s.db.outbox_events) in
    let s' : Publisher = record {
      timer = on_settled {0} {A = Unit {0}} (ok tt) (on_tick s.timer);
      queue = add_jobs picked s.queue;
      db = db';
    } in
    let left : length (select waits db'.outbox_events)
        ≤ length (select waits s.db.outbox_events) - 10 =
      unfold pick_events in
      omega (
        arith,
        rows_waiting processor now
            (take 10 (select (claimable_event none none_locked) s.db.outbox_events))
            s.db.outbox_events,
        waits_after_claim 10 none_locked s.db.outbox_events (λ e. refl),
      ) in
    let (waiting, changed) =
      calm_rounds-drain h processor nows s'
        (on_settled-IsGuarded {A = Unit {0}} (ok tt) (on_tick s.timer)
          (on_tick-IsGuarded s.timer g).0)
        (rows-idle processor now picked s.db.outbox_events idle)
        (rows-UniqueIds processor now picked s.db.outbox_events unique)
        (omega (arith, left, few)) in
    let same : run_interval h processor (due ∷ round_ends none_locked always_added [] now ∷ []) s
        ≡ s' =
      interval_round h processor none_locked always_added [] now s g
      ∙ ap
          (λ (r : Result (Unit {0}) × (List QueuedJob × Session)). record {
            timer = on_settled r.0 (on_tick s.timer);
            queue = r.1.0;
            db = r.1.1.committed;
          })
          (round_steady h processor now s.queue s.db idle) in
    subst
      (λ (t : Publisher).
        let db'' = (run_interval h processor (calm_rounds nows) t).db in
        All (λ e. waits e ≡ false) db''.outbox_events
        × SentOrSame s.db.outbox_events db''.outbox_events)
      (sym same)
      (
        waiting,
        SentOrSame-trans s.db.outbox_events db'.outbox_events _
            (unfold pick_events in
              rows-SentOrSame processor now picked s.db.outbox_events
                (picked_waits 10 s.db.outbox_events unique))
            changed,
      )

-- After any run of the publisher, rounds that failed included, from a moment at which no event is in
-- the hands of a publisher: when nothing fails any more, the ticks empty the outbox. After one for
-- every ten events that wait none waits, each of them is SENT, under its id and for its transaction,
-- and every other row is as it was. No two rows of the outbox have one id.
pub outbox_drains :
    (h : Host) (processor : String) (before : List Moment) (nows : List ℕ) (queue : List QueuedJob)
    (db : Db)
    → let s =
        run_interval h processor before (record { timer = new_timer; queue = queue; db = db }) in
      Idle s.db
      → UniqueIds s.db.outbox_events
      → length (select waits s.db.outbox_events) ≤ 10 * length nows
      → let db' = (run_interval h processor (calm_rounds nows) s).db in
        All (λ e. waits e ≡ false) db'.outbox_events
        × SentOrSame s.db.outbox_events db'.outbox_events
outbox_drains h processor before nows queue db idle unique few =
    let start : Publisher = record { timer = new_timer; queue = queue; db = db } in
    calm_rounds-drain h processor nows (run_interval h processor before start)
      (run_interval-IsGuarded h processor before start refl) idle unique few
