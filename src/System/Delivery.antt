-- ===== src/System/Delivery.antt =====
-- What the tables, the queue and the publishers know of each other's events.
use payment_sim.Outbox.{QueuedJob, has_job, add_job, complete_job, leaves}
use payment_sim.Outbox.Rounds.{All-pure}
use payment_sim.Store.Tables.{pending, sent, Event, Db, update_where, first_where, is_some}
use payment_sim.Store.Updates.Lifecycle.{All-update_where}
use payment_sim.Store.Save.Inserts.{HasOutboxEvent}
use payment_sim.Prelude.{
  suc, ◌<◌, String, ◌≡◌, refl, sym, ◌∙◌, subst, ◌≢◌, inl, inr, Bool, true, List, [], ◌∷◌, ◌++◌,
  arith, eq_refl, Bool-cases, All, All-append, All-imp, ◌⊎◌, any, ◌==◌, false, eq_iff,
}

-- The jobs of the queue, and the ids of those that completed.
abbrev pub QueueState : Type 0
QueueState = List QueuedJob × List String

-- The job of a transaction is in the queue, or it was there and completed.
abbrev pub Queued : String → QueueState → Type 0
Queued id queue =
    (is_some (first_where (has_job id) queue.0) ≡ true)
    ⊎ (any (λ other. other == id) queue.1 ≡ true)

-- An event carries the id and the transaction of the table: a row with its id has its transaction,
-- and no later row gets its id.
abbrev pub Agrees : Db → Event → Type 0
Agrees db e =
    (e.id < db.next_event_id) × All (λ x. x.id ≡ e.id → x.txn_id ≡ e.txn_id) db.outbox_events

-- Events that are SENT had their job queued; `held` are the events that publishers have in hand.
pub record Delivery (held : List Event) (queue : QueueState) (db : Db) : Type 0 where
  pub queued : All (λ e. e.status ≡ sent → Queued e.txn_id queue) db.outbox_events
  pub listed : All (Agrees db) db.outbox_events
  pub holds : All (Agrees db) held

-- Transactions and dead letters are no part of it.
pub tables-Delivery :
    (held : List Event) (queue : QueueState) (db new : Db)
    → new.outbox_events ≡ db.outbox_events
    → new.next_event_id ≡ db.next_event_id
    → Delivery held queue db
    → Delivery held queue new
tables-Delivery held queue db new events next d =
    let moved : (e : Event) → Agrees db e → Agrees new e = λ e ag. (
      subst (λ n. e.id < n) (sym next) ag.0,
      subst (All (λ x. x.id ≡ e.id → x.txn_id ≡ e.txn_id)) (sym events) ag.1,
    ) in
    record {
      queued = subst (All (λ e. e.status ≡ sent → Queued e.txn_id queue)) (sym events) d.queued;
      listed = subst (All (Agrees new)) (sym events) (All-imp _ _ db.outbox_events moved d.listed);
      holds = All-imp _ _ held moved d.holds;
    }

-- A larger queue.
pub queue-Delivery :
    (held : List Event) (queue more : QueueState) (db : Db)
    → ((id : String) → Queued id queue → Queued id more)
    → Delivery held queue db
    → Delivery held more db
queue-Delivery held queue more db grown d = record {
  queued = All-imp _ _ db.outbox_events (λ e q is_sent. grown e.txn_id (q is_sent)) d.queued;
  listed = d.listed;
  holds = d.holds;
}

All-updated {ℓ κ} :
    {A : Type ℓ} (P : A → Type κ) (p : A → Bool) (f : A → A) (rs : List A)
    → All (λ r. p r ≡ true → P (f r)) rs
    → All P rs
    → All P (update_where p f rs)
unfolding update_where
All-updated P p f [] new old = tt
All-updated P p f (r ∷ rs) new old =
    let rest = All-updated P p f rs new.1 old.1 in
    elim (Bool-cases (p r)) [
      | inl hit ↦ rw hit (new.0 hit, rest)
      | inr miss ↦ rw miss (old.0, rest)
    ]

-- An UPDATE of the outbox that keeps ids and transactions.
module _ (p : Event → Bool) (f : Event → Event) (db : Db) (ids : (e : Event) → (f e).id ≡ e.id)
    (txns : (e : Event) → (f e).txn_id ≡ e.txn_id) where
  abbrev updated : Db
  updated = record db { outbox_events = update_where p f db.outbox_events }

  pub update-Agrees : (e : Event) → Agrees db e → Agrees updated e
  update-Agrees e ag = (
    ag.0,
    All-update_where (λ x. x.id ≡ e.id → x.txn_id ≡ e.txn_id) p f db.outbox_events
        (λ r _ same q. txns r ∙ same (sym (ids r) ∙ q)) ag.1,
  )

  marked-Agrees : (e : Event) → Agrees updated e → Agrees updated (f e)
  marked-Agrees e ag = (
    subst (λ n. n < db.next_event_id) (sym (ids e)) ag.0,
    All-imp _ _ updated.outbox_events (λ x same q. same (q ∙ ids e) ∙ sym (txns e)) ag.1,
  )

  pub update-Delivery :
      (held : List Event) (queue : QueueState)
      → All (λ e. p e ≡ true → (f e).status ≡ sent → Queued e.txn_id queue) db.outbox_events
      → Delivery held queue db
      → Delivery held queue updated
  update-Delivery held queue jobs d = record {
    queued =
        All-updated (λ e. e.status ≡ sent → Queued e.txn_id queue) p f db.outbox_events
          (All-imp _ _ db.outbox_events
            (λ e job hit is_sent. subst (λ id. Queued id queue) (sym (txns e)) (job hit is_sent))
            jobs)
          d.queued;
    listed =
        All-update_where (Agrees updated) p f db.outbox_events (λ e _. marked-Agrees e)
          (All-imp _ _ db.outbox_events update-Agrees d.listed);
    holds = All-imp _ _ held update-Agrees d.holds;
  }

  -- An UPDATE that makes no event SENT.
  pub unsent-Delivery :
      (held : List Event) (queue : QueueState)
      → ((e : Event) → (f e).status ≢ sent)
      → Delivery held queue db
      → Delivery held queue updated
  unsent-Delivery held queue not_sent =
      update-Delivery held queue
        (All-pure _ db.outbox_events (λ e _ is_sent. absurd (not_sent e is_sent)))

-- A new event: it is pending, and its id is new.
pub grown-Delivery :
    (held : List Event) (queue : QueueState) (db new : Db) (e : Event)
    → e.status ≡ pending
    → e.id ≡ db.next_event_id
    → new.outbox_events ≡ db.outbox_events ++ e ∷ []
    → new.next_event_id ≡ suc db.next_event_id
    → Delivery held queue db
    → Delivery held queue new
grown-Delivery held queue db new e waiting is_next grown next d =
    let older : (x : Event) → Agrees db x → Agrees new x = λ x ag. (
      omega (arith, next, ag.0),
      subst (All (λ y. y.id ≡ x.id → y.txn_id ≡ x.txn_id)) (sym grown) (
          All-append _ db.outbox_events (e ∷ []) ag.1
            (λ q. absurd (omega (arith, q, is_next, ag.0)), tt)),
    ) in
    let newest : Agrees new e = (
      omega (arith, next, is_next),
      subst (All (λ y. y.id ≡ e.id → y.txn_id ≡ e.txn_id)) (sym grown) (
          All-append _ db.outbox_events (e ∷ [])
            (All-imp (Agrees db) _ db.outbox_events
              (λ y ag q. absurd (omega (arith, q, is_next, ag.0))) d.listed)
            (λ q. refl, tt)),
    ) in
    record {
      queued = subst (All (λ x. x.status ≡ sent → Queued x.txn_id queue)) (sym grown) (
          All-append _ db.outbox_events (e ∷ []) d.queued
            (λ is_sent. absurd (cc (waiting, is_sent)), tt));
      listed = subst (All (Agrees new)) (sym grown) (
          All-append _ db.outbox_events (e ∷ []) (All-imp _ _ db.outbox_events older d.listed)
            (newest, tt));
      holds = All-imp _ _ held older d.holds;
    }

-- A save.
pub saved-Delivery :
    (held : List Event) (queue : QueueState) (id : String) (db new : Db)
    → HasOutboxEvent id db new
    → Delivery held queue db
    → Delivery held queue new
saved-Delivery held queue id db new x d = elim x.added [
  | inl same ↦
      let later : (e : Event) → Agrees db e → Agrees new e = λ e ag. (
        omega (arith, x.advanced, ag.0),
        subst (All (λ y. y.id ≡ e.id → y.txn_id ≡ e.txn_id)) (sym same) ag.1,
      ) in
      record {
        queued = subst (All (λ e. e.status ≡ sent → Queued e.txn_id queue)) (sym same) d.queued;
        listed = subst (All (Agrees new)) (sym same) (All-imp _ _ db.outbox_events later d.listed);
        holds = All-imp _ _ held later d.holds;
      }
  | inr (e, _, waiting, is_next, grown, _) ↦
      grown-Delivery held queue db new e waiting is_next grown x.advanced d
]

-- `add` of the queue.
found-append :
    (id : String) (xs : List QueuedJob) (j : QueuedJob)
    → is_some (first_where (has_job id) xs) ≡ true
    → is_some (first_where (has_job id) (xs ++ j ∷ [])) ≡ true
unfolding first_where
found-append id [] j q = cc
found-append id (x ∷ xs) j q = elim (Bool-cases (has_job id x)) [
  | inl hit ↦ rw hit refl
  | inr miss ↦ rw miss (found-append id xs j (rw miss at q))
]

found_last :
    (id : String) (xs : List QueuedJob) (j : QueuedJob)
    → has_job id j ≡ true
    → is_some (first_where (has_job id) (xs ++ j ∷ [])) ≡ true
unfolding first_where
found_last id [] j hit = rw hit refl
found_last id (x ∷ xs) j hit = elim (Bool-cases (has_job id x)) [
  | inl first ↦ rw first refl
  | inr miss ↦ rw miss (found_last id xs j hit)
]

pub add_job-keeps :
    (e : Event) (queue : List QueuedJob) (completed : List String) (id : String)
    → Queued id (queue, completed)
    → Queued id (add_job e queue, completed)
unfolding add_job
add_job-keeps e queue completed id (inr done) = inr done
add_job-keeps e queue completed id (inl q) =
    elim (Bool-cases (is_some (first_where (has_job e.txn_id) queue))) [
      | inl known ↦ rw known (inl q)
      | inr new ↦ rw new (inl (found-append id queue _ q))
    ]

pub add_job-Queued :
    (e : Event) (queue : List QueuedJob) (completed : List String)
    → Queued e.txn_id (add_job e queue, completed)
unfolding add_job
add_job-Queued e queue completed =
    elim (Bool-cases (is_some (first_where (has_job e.txn_id) queue))) [
      | inl known ↦ rw known (inl known)
      | inr new ↦ rw new (inl (found_last e.txn_id queue _ (eq_refl e.txn_id)))
    ]

-- A job with another id than the one that completes stays.
found-complete_job :
    (done id : String) (xs : List QueuedJob)
    → (done == id) ≡ false
    → is_some (first_where (has_job id) xs) ≡ true
    → is_some (first_where (has_job id) (complete_job done xs)) ≡ true
unfolding first_where complete_job
found-complete_job done id [] differs q = cc
found-complete_job done id (x ∷ xs) differs q = elim (Bool-cases (has_job id x)) [
  | inl hit ↦
      let stays : leaves done x ≡ false =
        ground (arith, eq_iff x.job_id id, eq_iff x.job_id done, eq_iff done id) in
      rw (stays, hit) refl
  | inr miss ↦
      let rest = found-complete_job done id xs differs (rw miss at q) in
      elim (Bool-cases (leaves done x)) [
        | inl gone ↦ rw gone rest
        | inr stays ↦ rw (stays, miss) rest
      ]
]

pub complete_job-keeps :
    (done : String) (queue : List QueuedJob) (completed : List String) (id : String)
    → Queued id (queue, completed)
    → Queued id (complete_job done queue, done ∷ completed)
complete_job-keeps done queue completed id q = elim (Bool-cases (done == id)) [
  | inl same ↦ inr (rw same refl)
  | inr differs ↦ elim q [
    | inl waiting ↦ inl (found-complete_job done id queue differs waiting)
    | inr before ↦ inr (rw differs before)
  ]
]
