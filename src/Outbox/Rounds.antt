-- ===== src/Outbox/Rounds.antt =====
-- What a publisher leaves in the tables, whatever fails.
use payment_sim.Outbox.{
  pick_events, has_event_id, id_among, claimed_event, claim_outbox_events, sent_event,
  returned_event, QueuedJob,
}
use payment_sim.Outbox.Publish.{
  Enqueue, enqueue, mark_event, caught, mark_sent, mark_pending, publish_event, select_events,
  mark_claimed, claim_picked, claim_in_transaction,
}
use payment_sim.Redact.{sanitize_text}
use payment_sim.Store.Sql.{Session, Sql, query, autocommit, begin, lift}
use payment_sim.Store.Sql.Rules.{
  >>=-rule, committed-query, query-eq-ok, autocommit-rule, committed-begin, begin-eq-ok,
  or_rollback-rule, finish-rule,
}
use payment_sim.Store.Tables.{Event, Db, update_where}
use payment_sim.Store.Save.Inserts.{ok_pair}
use payment_sim.Value.{str, Host}
use payment_sim.Prelude.{
  ℕ, String, ◌≡◌, refl, sym, ap, ◌∙◌, subst, ◌⊎◌, inl, inr, Bool, false, Option, List, [], ◌∷◌,
  Result, throw, ok, All,
}

-- The row of an event marked.
abbrev pub marked : ℕ → (Event → Event) → Db → Db
marked id set db = record db { outbox_events = update_where (has_event_id id) set db.outbox_events }

pub mark_event-rule :
    (P : Db → Type 0) (id : ℕ) (set : Event → Event) (s : Session)
    → ((db : Db) → P db → P (marked id set db))
    → P s.committed
    → P (autocommit (mark_event id set) s).1.committed
unfolding mark_event
mark_event-rule P id set s keep old =
    autocommit-rule P (mark_event id set) s old
      (λ u db e. subst P (sym (ok_pair _ _ e).1) (keep s.committed old))

mark_sent-rule :
    (P : Db → Type 0) (e : Event) (now : ℕ) (r : Result (Unit {0})) (s : Session)
    → ((db : Db) → P db → P (marked e.id (sent_event now) db))
    → P s.committed
    → P (mark_sent e now r s).1.committed
mark_sent-rule P e now r s keep old =
    >>=-rule (λ r s'. P s'.committed) (lift r) _ s (λ error _. old)
      (λ u _. mark_event-rule P e.id (sent_event now) s keep old)

pub caught-rule :
    (P : Db → Type 0) (r : Result (Unit {0})) (handler : String → Sql (Unit {0})) (s : Session)
    → P s.committed
    → ((error : String) → P (handler error s).1.committed)
    → P (caught r handler s).1.committed
caught-rule P (ok u) handler s old thrown = old
caught-rule P (throw error) handler s old thrown = thrown error

-- An event of the loop: the table stays, or its row is marked, once or twice.
pub publish_event-rule :
    (P : Db → Type 0) (h : Host) (e : Event) (outcome : Enqueue) (now : ℕ) (queue : List QueuedJob)
    (s : Session)
    → ((db : Db) → P db → P (marked e.id (sent_event now) db))
    → ((error : String) (db : Db) → P db → P (marked e.id (returned_event error now) db))
    → P s.committed
    → P (publish_event h e outcome now (queue, s)).1.1.committed
unfolding publish_event
publish_event-rule P h e outcome now queue s sends returns old =
    let r = (enqueue e outcome queue).0 in
    let first : P (mark_sent e now r s).1.committed = mark_sent-rule P e now r s sends old in
    caught-rule P (mark_sent e now r s).0 (mark_pending h e now) (mark_sent e now r s).1 first
      (λ error.
        mark_event-rule P e.id (returned_event (sanitize_text h (str error)) now)
          (mark_sent e now r s).1 (returns (sanitize_text h (str error))) first)

-- What a claim answers, and what it leaves.
abbrev pub ClaimEnsures :
    ℕ → String → Option (List String) → (Event → Bool) → ℕ → Db → Result (List Event) → Db → Type 0
ClaimEnsures limit processor ids locked now old (ok events) db =
    claim_outbox_events limit processor ids locked now old ≡ (events, db)
ClaimEnsures limit processor ids locked now old (throw error) db =
    (db ≡ old) ⊎ (db ≡ (claim_outbox_events limit processor ids locked now old).1)

-- the effect of the UPDATE of a claim
abbrev pub claim_effect : String → ℕ → List Event → Db → Db
claim_effect processor now picked db = record db {
  outbox_events = update_where (id_among picked) (claimed_event processor now) db.outbox_events;
}

pub update_where-none :
    {A : Type 0} (p : A → Bool) (f : A → A) (xs : List A)
    → All (λ x. p x ≡ false) xs
    → update_where p f xs ≡ xs
unfolding update_where
update_where-none p f [] none_fits = refl
update_where-none p f (x ∷ xs) none_fits =
    rw none_fits.0 (ap (λ ys. x ∷ ys) (update_where-none p f xs none_fits.1))

pub All-pure : {A : Type 0} (P : A → Type 0) (xs : List A) → ((x : A) → P x) → All P xs
All-pure P [] f = tt
All-pure P (x ∷ xs) f = (f x, All-pure P xs f)

claim_picked-rule :
    (processor : String) (now : ℕ) (picked : List Event) (s : Session)
    → let (r, t) = claim_picked processor now picked s in
      (t.committed ≡ s.committed)
      × ((u : Unit {0})
          → r ≡ ok u
          → ok (tt, t.working) ≡ mark_claimed processor now picked s.working)
claim_picked-rule processor now [] s = (
  refl,
  λ u e.
      ap (λ (es : List Event). ok (tt, record s.working { outbox_events = es }))
        (sym (
          update_where-none (id_among []) (claimed_event processor now) s.working.outbox_events
            (All-pure _ s.working.outbox_events (λ x. refl)))),
)
claim_picked-rule processor now (e ∷ es) s = (
  committed-query (mark_claimed processor now (e ∷ es)) s,
  λ u q. sym (query-eq-ok (mark_claimed processor now (e ∷ es)) s u q),
)

claim_statements :
    (limit : ℕ) (processor : String) (ids : Option (List String)) (locked : Event → Bool) (now : ℕ)
    (old d1 d2 d3 : Db) (picked : List Event)
    → d1 ≡ old
    → picked ≡ pick_events limit ids locked d1
    → d2 ≡ d1
    → ok (tt, d3) ≡ mark_claimed processor now picked d2
    → claim_outbox_events limit processor ids locked now old ≡ (picked, d3)
unfolding claim_outbox_events
claim_statements limit processor ids locked now old d1 d2 d3 picked p which q ran =
    let same : d3 ≡ claim_effect processor now picked old =
      sym (ok_pair _ _ ran).1 ∙ ap (claim_effect processor now picked) (q ∙ p) in
    let which' : picked ≡ pick_events limit ids locked old =
      which ∙ ap (pick_events limit ids locked) p in
    ap (λ (es : List Event). (es, claim_effect processor now es old)) (sym which')
    ∙ ap (λ (d : Db). (picked, d)) (sym same)

-- `claimOutboxEvents`, statement by statement, is one atomic claim: if it answers, it answers the
-- events that the claim takes and the table is as the claim leaves it; if it throws, the table is
-- as before or, where only the answer to COMMIT is lost, as the claim leaves it.
pub claim_in_transaction-ClaimEnsures :
    (limit : ℕ) (processor : String) (ids : Option (List String)) (locked : Event → Bool) (now : ℕ)
    (s : Session)
    → let (r, t) = claim_in_transaction limit processor ids locked now s in
      ClaimEnsures limit processor ids locked now s.committed r t.committed
unfolding claim_in_transaction select_events claim_outbox_events
claim_in_transaction-ClaimEnsures limit processor ids locked now s =
    let P : Result (List Event) → Session → Type 0 =
      λ r t. ClaimEnsures limit processor ids locked now s.committed r t.committed in
    or_rollback-rule (ClaimEnsures limit processor ids locked now s.committed) _ s (λ e e' db p. p)
      (>>=-rule P begin _ s (λ e _. inl (committed-begin s))
        λ u began.
          (let s1 : Session = (begin s).1 in
            let select = select_events limit ids locked in
            let kept1 : s1.committed ≡ s.committed = committed-begin s in
            >>=-rule P (query select) _ s1 (λ e _. inl (committed-query select s1 ∙ kept1))
              λ picked q1.
                let s2 : Session = (query select s1).1 in
                let kept2 : s2.committed ≡ s.committed = committed-query select s1 ∙ kept1 in
                let (which, same) = ok_pair _ _ (query-eq-ok select s1 picked q1) in
                let (kept, ran) = claim_picked-rule processor now picked s2 in
                >>=-rule P (claim_picked processor now picked) _ s2 (λ e _. inl (kept ∙ kept2))
                  λ u2 q2.
                    let s3 : Session = (claim_picked processor now picked s2).1 in
                    let whole =
                      claim_statements limit processor ids locked now s.committed s1.working
                        s2.working s3.working picked (begin-eq-ok s began) which same (ran u2 q2) in
                    finish-rule (ClaimEnsures limit processor ids locked now s.committed) picked s3
                      (λ e db left. elim left [
                        | inl p ↦ inl (p ∙ kept ∙ kept2)
                        | inr p ↦ inr (p ∙ ap (λ (r : List Event × Db). r.1) (sym whole))
                      ])
                      whole))

-- What holds before a claim, and after an atomic one, holds after the claim.
pub claim_in_transaction-rule :
    (P : Db → Type 0) (limit : ℕ) (processor : String) (ids : Option (List String))
    (locked : Event → Bool) (now : ℕ) (s : Session)
    → P s.committed
    → P (claim_outbox_events limit processor ids locked now s.committed).1
    → P (claim_in_transaction limit processor ids locked now s).1.committed
claim_in_transaction-rule P limit processor ids locked now s old new =
    go (claim_in_transaction limit processor ids locked now s).0
      (claim_in_transaction limit processor ids locked now s).1.committed
      (claim_in_transaction-ClaimEnsures limit processor ids locked now s)
  where
    go :
        (r : Result (List Event)) (db : Db)
        → ClaimEnsures limit processor ids locked now s.committed r db
        → P db
    go (ok events) db e = subst P (ap (λ (r : List Event × Db). r.1) e) new
    go (throw error) db (inl e) = subst P (sym e) old
    go (throw error) db (inr e) = subst P (sym e) new
