-- ===== src/Outbox/Steady.antt =====
-- A round of the publisher in which nothing fails.
use payment_sim.Outbox.{
  in_process, stale_event, recovered_event, recover_stale_outbox_events, pick_events, has_event_id,
  id_among, claimed_event, sent_event, QueuedJob, add_job, default_stale_timeout_ms,
  default_max_recoveries,
}
use payment_sim.Outbox.Publish.{
  Enqueue, added, mark_event, publish_event, go_on, publish_events, select_events, claim_picked,
  claim_in_transaction, recover_events_statement, publish_claimed, process_outbox_events,
}
use payment_sim.Outbox.Rounds.{marked, claim_effect, update_where-none, All-pure}
use payment_sim.Outbox.Rows.{none_locked, sent_row, round_row}
use payment_sim.Store.Sql.{query, autocommit, begin, commit, lift, ◌>>=◌, ◌>>◌}
use payment_sim.Store.Sql.Rules.{>>=-ok, or_rollback-ok, steady}
use payment_sim.Store.Tables.{Event, Db, update_where}
use payment_sim.Value.{Host}
use payment_sim.Prelude.{
  ℕ, String, ◌≡◌, refl, sym, ap, ◌∙◌, Bool, false, none, List, [], ◌∷◌, map, if◌then◌else◌, select,
  All, All-imp, ok,
}

abbrev pub always_added : Event → Enqueue
always_added e = added

abbrev pub add_jobs : List Event → List QueuedJob → List QueuedJob
add_jobs [] queue = queue
add_jobs (e ∷ es) queue = add_jobs es (add_job e queue)

abbrev pub with_events : Db → List Event → Db
with_events db events = record db { outbox_events = events }

update_where-map :
    {A : Type 0} (p : A → Bool) (f : A → A) (xs : List A)
    → update_where p f xs ≡ map (λ x. if p x then f x else x) xs
unfolding update_where
update_where-map p f [] = refl
update_where-map p f (x ∷ xs) = ap (λ ys. (if p x then f x else x) ∷ ys) (update_where-map p f xs)

publish_event-steady :
    (h : Host) (e : Event) (now : ℕ) (queue : List QueuedJob) (db : Db)
    → publish_event h e added now (queue, steady db db) ≡ (
      ok tt,
      (add_job e queue, steady (marked e.id (sent_event now) db) (marked e.id (sent_event now) db)),
    )
unfolding publish_event autocommit mark_event ◌>>=◌
publish_event-steady h e now queue db = refl

map-same : {A : Type 0} (xs : List A) → map (λ x. x) xs ≡ xs
map-same [] = refl
map-same (x ∷ xs) = ap (λ ys. x ∷ ys) (map-same xs)

map-map :
    {A B C : Type 0} (g : B → C) (f : A → B) (xs : List A)
    → map g (map f xs) ≡ map (λ x. g (f x)) xs
map-map g f [] = refl
map-map g f (x ∷ xs) = ap (λ ys. g (f x) ∷ ys) (map-map g f xs)

publish_events-steady :
    (h : Host) (now : ℕ) (es : List Event) (queue : List QueuedJob) (db : Db)
    → let db' = with_events db (map (sent_row now es) db.outbox_events) in
      publish_events h always_added now es (queue, steady db db)
      ≡ (ok tt, (add_jobs es queue, steady db' db'))
unfolding publish_events
publish_events-steady h now [] queue db =
    ap (λ (es : List Event). (ok tt, (queue, steady (with_events db es) (with_events db es))))
      (sym (map-same db.outbox_events))
publish_events-steady h now (e ∷ es) queue db =
    let first = marked e.id (sent_event now) db in
    ap (go_on (publish_events h always_added now es)) (publish_event-steady h e now queue db)
    ∙ publish_events-steady h now es (add_job e queue) first
    ∙ ap
        (λ (rows : List Event).
          (ok tt, (add_jobs (e ∷ es) queue, steady (with_events db rows) (with_events db rows))))
        (ap (map (sent_row now es))
            (update_where-map (has_event_id e.id) (sent_event now) db.outbox_events)
          ∙ map-map (sent_row now es) _ db.outbox_events)

-- No event is in the hands of a publisher.
abbrev pub Idle : Db → Type 0
Idle db = All (λ e. in_process e.status ≡ false) db.outbox_events

select-none :
    {A : Type 0} (p : A → Bool) (xs : List A) → All (λ x. p x ≡ false) xs → select p xs ≡ []
select-none p [] h = refl
select-none p (x ∷ xs) h = rw h.0 (select-none p xs h.1)

recover-Idle :
    (timeout max_recoveries now : ℕ) (db : Db)
    → Idle db
    → recover_stale_outbox_events timeout max_recoveries none now db ≡ ([], db)
unfolding recover_stale_outbox_events
recover-Idle timeout max_recoveries now db idle =
    let untouched : All (λ e. stale_event timeout none now e ≡ false) db.outbox_events =
      All-imp (λ e. in_process e.status ≡ false) (λ e. stale_event timeout none now e ≡ false)
        db.outbox_events (λ e h. rw h refl) idle in
    ap
      (λ (es : List Event). (
        map (recovered_event max_recoveries now) es,
        record db {
          outbox_events =
              update_where (stale_event timeout none now) (recovered_event max_recoveries now)
                db.outbox_events;
        },
      ))
      (select-none (stale_event timeout none now) db.outbox_events untouched)
    ∙ ap (λ (es : List Event). ([], with_events db es))
        (update_where-none (stale_event timeout none now) (recovered_event max_recoveries now)
          db.outbox_events untouched)

claim_picked-steady :
    (processor : String) (now : ℕ) (picked : List Event) (db : Db)
    → let db' = claim_effect processor now picked db in
      (do claim_picked processor now picked; commit; lift (ok picked)) (steady db db)
      ≡ (ok picked, steady db' db')
unfolding query commit ◌>>=◌
claim_picked-steady processor now [] db =
    ap (λ (es : List Event). (ok [], steady (with_events db es) (with_events db es)))
      (sym (
        update_where-none (id_among []) (claimed_event processor now) db.outbox_events
          (All-pure _ db.outbox_events (λ x. refl))))
claim_picked-steady processor now (e ∷ es) db = refl

claim_steady :
    (processor : String) (now : ℕ) (db : Db)
    → let picked = pick_events 10 none none_locked db in
      let db' = claim_effect processor now picked db in
      claim_in_transaction 10 processor none none_locked now (steady db db)
      ≡ (ok picked, steady db' db')
unfolding claim_in_transaction select_events query begin
claim_steady processor now db =
    let picked = pick_events 10 none none_locked db in
    let db' = claim_effect processor now picked db in
    or_rollback-ok _ (steady db db) (steady db' db') picked (
      >>=-ok begin _ (steady db db) (steady db db) tt refl
      ∙ >>=-ok (query (select_events 10 none none_locked)) _ (steady db db) (steady db db) picked
          refl
      ∙ claim_picked-steady processor now picked db)

-- A round in which nothing fails.
pub round_steady :
    (h : Host) (processor : String) (now : ℕ) (queue : List QueuedJob) (db : Db)
    → Idle db
    → let picked = pick_events 10 none none_locked db in
      let db' = with_events db (map (round_row processor now picked) db.outbox_events) in
      process_outbox_events h processor none_locked always_added now (queue, steady db db)
      ≡ (ok tt, (add_jobs picked queue, steady db' db'))
unfolding process_outbox_events recover_events_statement autocommit
round_steady h processor now queue db idle =
    let picked = pick_events 10 none none_locked db in
    let claimed = claim_effect processor now picked db in
    ap (publish_claimed h always_added now queue) (
      >>=-ok (autocommit (recover_events_statement h now)) _ (steady db db) (steady db db) [] (
        ap (λ (r : List Event × Db). (ok r.0, steady r.1 r.1))
          (recover-Idle (default_stale_timeout_ms h) (default_max_recoveries h) now db idle))
      ∙ claim_steady processor now db)
    ∙ publish_events-steady h now picked queue claimed
    ∙ ap
        (λ (rows : List Event).
          (ok tt, (add_jobs picked queue, steady (with_events db rows) (with_events db rows))))
        (ap (map (sent_row now picked))
            (update_where-map (id_among picked) (claimed_event processor now) db.outbox_events)
          ∙ map-map (sent_row now picked) _ db.outbox_events)
