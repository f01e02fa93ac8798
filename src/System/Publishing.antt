-- ===== src/System/Publishing.antt =====
-- The steps of the publishers keep what is known of the events.
use payment_sim.Store.Sql.{Fault, ◌>>=◌}
use payment_sim.System.{session_on}
use payment_sim.System.Delivery.{
  Queued, Agrees, Delivery, queue-Delivery, update-Agrees, update-Delivery, unsent-Delivery,
  add_job-keeps, add_job-Queued, QueueState,
}
use payment_sim.Outbox.{
  stale_event, recovered_event, recover_stale_outbox_events, claimable_event, pick_events,
  has_event_id, id_among, claimed_event, claim_outbox_events, sent_event, returned_event, QueuedJob,
  add_job,
}
use payment_sim.Outbox.Publish.{Enqueue, refused, unanswered, publish_event, claim_in_transaction}
use payment_sim.Outbox.Rounds.{
  marked, mark_event-rule, publish_event-rule, ClaimEnsures, claim_in_transaction-ClaimEnsures,
}
use payment_sim.Outbox.Claims.{All-select, All-take}
use payment_sim.Store.Tables.{sent, Event, Db}
use payment_sim.Redact.{sanitize_text}
use payment_sim.Value.{str, Host}
use payment_sim.Prelude.{
  ℕ, ◌+◌, String, refl, sym, subst, ◌≢◌, inl, inr, Bool, Option, List, [], ◌∷◌, ◌++◌, arith, leb,
  Bool-cases, All, All-append, All-imp, Result, throw, ok,
}
use mathlib.Core.List.{Memᴰ}

-- The events that a step puts into the hands of a publisher: those that a claim answers.
abbrev pub answered_events : Result (List Event) → List Event
answered_events (ok events) = events
answered_events (throw error) = []

All-Mem {ℓ κ} : {A : Type ℓ} (P : A → Type κ) (xs : List A) (x : A) → All P xs → Memᴰ x xs → P x
All-Mem P [] x h m = elim m [ ]
All-Mem P (y ∷ ys) x h (Memᴰ.head e) = subst P (sym e) h.0
All-Mem P (y ∷ ys) x h (Memᴰ.tail m) = All-Mem P ys x h.1 m

module _ (held : List Event) (queue : QueueState) where
  recovered-unsent :
      (max_recoveries now : ℕ) (e : Event) → (recovered_event max_recoveries now e).status ≢ sent
  unfolding recovered_event
  recovered-unsent max_recoveries now e is_sent =
      elim (Bool-cases (leb max_recoveries (e.recovery_count + 1))) [
        | inl last ↦ cc (rw last at is_sent)
        | inr again ↦ cc (rw again at is_sent)
      ]

  pub recover_events-Delivery :
      (timeout max_recoveries : ℕ) (ids : Option (List String)) (now : ℕ) (db : Db)
      → Delivery held queue db
      → Delivery held queue (recover_stale_outbox_events timeout max_recoveries ids now db).1
  unfolding recover_stale_outbox_events
  recover_events-Delivery timeout max_recoveries ids now db =
      unfold recovered_event in
      unsent-Delivery (stale_event timeout ids now) (recovered_event max_recoveries now) db
        (λ e. refl) (λ e. refl) held queue (recovered-unsent max_recoveries now)

  claim_events-Delivery :
      (limit : ℕ) (processor : String) (ids : Option (List String)) (locked : Event → Bool)
      (now : ℕ) (db : Db)
      → Delivery held queue db
      → Delivery held queue (claim_outbox_events limit processor ids locked now db).1
  unfolding claim_outbox_events
  claim_events-Delivery limit processor ids locked now db =
      unfold claimed_event in
      unsent-Delivery (id_among (pick_events limit ids locked db)) (claimed_event processor now) db
        (λ e. refl) (λ e. refl) held queue (λ e is_sent. cc is_sent)

  -- What a claim answers agrees with the table.
  picked-Agrees :
      (limit : ℕ) (processor : String) (ids : Option (List String)) (locked : Event → Bool)
      (now : ℕ) (db : Db)
      → Delivery held queue db
      → let (events, db') = claim_outbox_events limit processor ids locked now db in
        All (Agrees db') events
  unfolding claim_outbox_events pick_events
  picked-Agrees limit processor ids locked now db d =
      unfold claimed_event in
      let picked = pick_events limit ids locked db in
      All-imp _ _ picked
        (update-Agrees (id_among picked) (claimed_event processor now) db (λ e. refl) (λ e. refl))
        (All-take (Agrees db) limit _ (
          All-select (Agrees db) (claimable_event ids locked) db.outbox_events
            (All-imp _ _ db.outbox_events (λ e ag _. ag) d.listed)))

  pub claim_session-Delivery :
      (limit : ℕ) (processor : String) (ids : Option (List String)) (locked : Event → Bool)
      (faults : List Fault) (now : ℕ) (db : Db)
      → Delivery held queue db
      → let (r, s) = claim_in_transaction limit processor ids locked now (session_on db faults) in
        Delivery (answered_events r ++ held) queue s.committed
  claim_session-Delivery limit processor ids locked faults now db d =
      go _ _
        (claim_in_transaction-ClaimEnsures limit processor ids locked now (session_on db faults))
    where
      once_claimed : Delivery held queue (claim_outbox_events limit processor ids locked now db).1
      once_claimed = claim_events-Delivery limit processor ids locked now db d

      more :
          Delivery
            ((claim_outbox_events limit processor ids locked now db).0 ++ held)
            queue
            (claim_outbox_events limit processor ids locked now db).1
      more = record {
        queued = once_claimed.queued;
        listed = once_claimed.listed;
        holds =
            All-append _ _ held (picked-Agrees limit processor ids locked now db d)
              once_claimed.holds;
      }

      go :
          (r : Result (List Event)) (db' : Db)
          → ClaimEnsures limit processor ids locked now db r db'
          → Delivery (answered_events r ++ held) queue db'
      go (ok events) db' e =
          subst (λ (p : List Event × Db). Delivery (p.0 ++ held) queue p.1) e more
      go (throw error) db' (inl e) = subst (Delivery held queue) (sym e) d
      go (throw error) db' (inr e) = subst (Delivery held queue) (sym e) once_claimed

  returned-Delivery :
      (id : ℕ) (error : String) (now : ℕ) (db : Db)
      → Delivery held queue db
      → Delivery held queue (marked id (returned_event error now) db)
  returned-Delivery id error now db =
      unfold returned_event in
      unsent-Delivery (has_event_id id) (returned_event error now) db (λ e. refl) (λ e. refl) held
        queue (λ e is_sent. cc is_sent)

  -- An event that is at hand is marked SENT when its job is in the queue.
  sent-Delivery :
      (e : Event) (now : ℕ) (db : Db)
      → Memᴰ e held
      → Queued e.txn_id queue
      → Delivery held queue db
      → Delivery held queue (marked e.id (sent_event now) db)
  sent-Delivery e now db at_hand job d =
      unfold sent_event in
      update-Delivery (has_event_id e.id) (sent_event now) db (λ x. refl) (λ x. refl) held queue
        (All-imp _ _ db.outbox_events
          (λ x same hit _. subst (λ id. Queued id queue) (sym (same (ground (arith, hit)))) job)
          (All-Mem (Agrees db) held e d.holds at_hand).1)
        d

-- A publication whose `add` put the job into the queue.
added-Delivery :
    (held : List Event) (h : Host) (e : Event) (outcome : Enqueue) (faults : List Fault) (now : ℕ)
    (queue : List QueuedJob) (completed : List String) (db : Db)
    → Memᴰ e held
    → Delivery held (queue, completed) db
    → Delivery held
        (add_job e queue, completed)
        (publish_event h e outcome now (queue, session_on db faults)).1.1.committed
added-Delivery held h e outcome faults now queue completed db m d =
    let more : QueueState = (add_job e queue, completed) in
    publish_event-rule (Delivery held more) h e outcome now queue (session_on db faults)
      (λ db'. sent-Delivery held more e now db' m (add_job-Queued e queue completed))
      (λ error. returned-Delivery held more e.id error now)
      (queue-Delivery held (queue, completed) more db (add_job-keeps e queue completed) d)

-- One event of the publisher's loop.
pub publish-Delivery :
    (held : List Event) (h : Host) (e : Event) (outcome : Enqueue) (faults : List Fault) (now : ℕ)
    (queue : List QueuedJob) (completed : List String) (db : Db)
    → Memᴰ e held
    → Delivery held (queue, completed) db
    → let (_, (queue', s)) = publish_event h e outcome now (queue, session_on db faults) in
      Delivery held (queue', completed) s.committed
unfolding publish_event ◌>>=◌
publish-Delivery held h e Enqueue.added faults now queue completed db m d =
    added-Delivery held h e Enqueue.added faults now queue completed db m d
publish-Delivery held h e (unanswered error) faults now queue completed db m d =
    added-Delivery held h e (unanswered error) faults now queue completed db m d
publish-Delivery held h e (refused error) faults now queue completed db m d =
    mark_event-rule (Delivery held (queue, completed)) e.id
      (returned_event (sanitize_text h (str error)) now) (session_on db faults)
      (returned-Delivery held (queue, completed) e.id (sanitize_text h (str error)) now) d
