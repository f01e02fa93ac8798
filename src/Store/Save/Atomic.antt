-- ===== src/Store/Save/Atomic.antt =====
-- Whatever fails on the way, the transaction and its outbox event are stored together or not at all.
use payment_sim.Store.Sql.{Session, query, begin, lift}
use payment_sim.Store.Sql.Rules.{
  >>=-rule, committed-query, query-eq-ok, committed-begin, begin-eq-ok, or_rollback-rule,
  finish-rule,
}
use payment_sim.Store.Tables.{Row, Event, Db, first_where}
use payment_sim.Store.Save.Statements.{
  parameter, transaction_values, has_key, has_id, insert_row, insert_transaction, select_by_key,
  insert_event,
}
use payment_sim.Store.Save.Inserts.{
  HasOutboxEvent, IsSaved, SaveEnsures, ok_pair, insert_row-cases, transaction_values-id,
  insert_event-event,
}
use payment_sim.Store.Save.{
  insert_outbox_event, SaveResult, save_rest, save_in_transaction, save_transaction_with_outbox,
}
use payment_sim.Sensitive.{sanitize_transaction_for_persistence, sanitize_payload}
use payment_sim.Value.{Value, Host, prop}
use payment_sim.Prelude.{
  ℕ, String, ◌≡◌, refl, sym, ap, ◌∙◌, subst, inl, inr, Option, none, some, [], ◌∷◌, ◌++◌, Result,
  ok, >>=-eq-ok,
}

-- What INSERT INTO outbox_events leaves, run on a session.
insert_outbox_event-rule :
    (h : Host) (txn : Value) (now : ℕ) (s : Session) (id : String)
    → parameter h (prop "id" txn) ≡ some id
    → let (r, s') = insert_outbox_event h txn now s in
      (s'.committed ≡ s.committed)
      × ((o : Option Event)
          → r ≡ ok o
          → (s'.working.transactions ≡ s.working.transactions)
            × HasOutboxEvent id s.working s'.working)
unfolding insert_outbox_event
insert_outbox_event-rule h txn now s id p =
    >>=-rule
      (λ r s'.
        (s'.committed ≡ s.committed)
        × ((o : Option Event)
            → r ≡ ok o
            → (s'.working.transactions ≡ s.working.transactions)
              × HasOutboxEvent id s.working s'.working))
      (lift (sanitize_payload h txn)) (λ payload. query (insert_event h txn payload now)) s
      (λ e _. (refl, λ o q. cc q))
      λ payload _. (
        committed-query (insert_event h txn payload now) s,
        λ o q.
            insert_event-event h txn payload now s.working _ o id p
              (query-eq-ok (insert_event h txn payload now) s o q),
      )

module _ (h : Host) (txn safe : Value) (now : ℕ) (s : Session) (old : Db)
    (unchanged : s.committed ≡ old) where
  duplicate-SaveEnsures :
      s.working ≡ old
      → SaveEnsures h txn now old
          (save_rest h txn safe now none s).0
          (save_rest h txn safe now none s).1.committed
  unfolding save_rest select_by_key query
  duplicate-SaveEnsures same =
      >>=-rule (λ r s'. SaveEnsures h txn now old r s'.committed)
        (query (select_by_key (parameter h (prop "idempotencyKey" txn)))) _ s (λ e _. inl unchanged)
        λ existing q.
          let key = parameter h (prop "idempotencyKey" txn) in
          let s' : Session = (query (select_by_key key) s).1 in
          let (found, kept) = ok_pair _ _ (query-eq-ok (select_by_key key) s existing q) in
          let same' : s'.working ≡ old = kept ∙ same in
          finish-rule (SaveEnsures h txn now old) _ s'
            (λ e db left. elim left [ inl p ↦ inl (p ∙ unchanged) | inr p ↦ inl (p ∙ same') ])
            (inr (
              refl,
              same',
              found ∙ ap (λ (db : Db). first_where (has_key key) db.transactions) same,
              refl,
            ))

  new-SaveEnsures :
      (r : Row)
      → sanitize_transaction_for_persistence h txn ≡ ok safe
      → transaction_values h safe now ≡ ok r
      → parameter h (prop "id" safe) ≡ some r.txn_id
      → s.working ≡ record old { transactions = old.transactions ++ r ∷ [] }
      → first_where (has_key r.idempotency_key) old.transactions ≡ none
      → first_where (has_id r.txn_id) old.transactions ≡ none
      → SaveEnsures h txn now old
          (save_rest h txn safe now (some r) s).0
          (save_rest h txn safe now (some r) s).1.committed
  unfolding save_rest
  new-SaveEnsures r cleaned made id added fresh new_id =
      let (kept, stored) = insert_outbox_event-rule h safe now s r.txn_id id in
      >>=-rule (λ r' s'. SaveEnsures h txn now old r' s'.committed) (insert_outbox_event h safe now)
        _ s (λ e _. inl (kept ∙ unchanged))
        λ event q.
          let s' : Session = (insert_outbox_event h safe now s).1 in
          let (rows, has_event) = stored event q in
          let outbox = subst (λ d. HasOutboxEvent r.txn_id d s'.working) added has_event in
          let saved : IsSaved h txn now r old s'.working = record {
            values = (safe, cleaned, made);
            row = rows ∙ ap (λ (db : Db). db.transactions) added;
            event = record {
              event = outbox.event;
              added = outbox.added;
              advanced = outbox.advanced;
              dead_letters = outbox.dead_letters;
            };
            fresh = fresh;
            new_id = new_id;
          } in
          finish-rule (SaveEnsures h txn now old) _ s'
            (λ e db left. elim left [
              | inl p ↦ inl (p ∙ kept ∙ unchanged)
              | inr p ↦ inr (r, subst (IsSaved h txn now r old) (sym p) saved)
            ])
            (inl (r, refl, refl, saved))

module _ (h : Host) (txn safe : Value) (now : ℕ) (s : Session)
    (cleaned : sanitize_transaction_for_persistence h txn ≡ ok safe) where
  -- After the INSERT, on either answer.
  inserted-SaveEnsures :
      (s' : Session) (inserted : Option Row)
      → s'.committed ≡ s.committed
      → insert_transaction h safe now s.committed ≡ ok (inserted, s'.working)
      → SaveEnsures h txn now s.committed
          (save_rest h txn safe now inserted s').0
          (save_rest h txn safe now inserted s').1.committed
  unfolding insert_transaction
  inserted-SaveEnsures s' inserted kept q =
      let (r, values, ran) =
        >>=-eq-ok (transaction_values h safe now) (λ r. insert_row r s.committed) q in
      elim (insert_row-cases r s.committed s'.working inserted ran) [
        | inl (no_row, same) ↦
            subst Ensured (sym no_row)
              (duplicate-SaveEnsures h txn safe now s' s.committed kept same)
        | inr (row, added, fresh, new_id) ↦ subst Ensured (sym row) (
            new-SaveEnsures h txn safe now s' s.committed kept r cleaned values
              (transaction_values-id h safe now r values) added fresh new_id)
      ]
    where
      Ensured : Option Row → Type 0
      Ensured o =
          SaveEnsures h txn now s.committed (save_rest h txn safe now o s').0
            (save_rest h txn safe now o s').1.committed

  transaction-SaveEnsures :
      SaveEnsures h txn now s.committed
        (save_in_transaction h txn safe now s).0
        (save_in_transaction h txn safe now s).1.committed
  unfolding save_in_transaction
  transaction-SaveEnsures =
      let P : Result SaveResult → Session → Type 0 =
        λ r s'. SaveEnsures h txn now s.committed r s'.committed in
      >>=-rule P begin _ s (λ e _. inl (committed-begin s))
        λ u began.
          let s1 : Session = (begin s).1 in
          >>=-rule P (query (insert_transaction h safe now)) _ s1
            (λ e _. inl (committed-query (insert_transaction h safe now) s1 ∙ committed-begin s))
            λ inserted q.
              inserted-SaveEnsures (query (insert_transaction h safe now) s1).1 inserted
                (committed-query (insert_transaction h safe now) s1 ∙ committed-begin s)
                (subst
                  (λ db.
                    insert_transaction h safe now db
                    ≡ ok (inserted, (query (insert_transaction h safe now) s1).1.working))
                  (begin-eq-ok s began) (query-eq-ok (insert_transaction h safe now) s1 inserted q))

-- A save stores the transaction and an outbox event for it together, or changes nothing, whichever
-- statement fails and whether or not its effect took place. If it answers that it inserted, the row
-- is stored, and neither its idempotency key nor its id was taken; if it answers that it did not,
-- nothing has changed, and the row in the answer is the one that holds the key.
pub save_transaction_with_outbox_atomic :
    (h : Host) (txn : Value) (now : ℕ) (s : Session)
    → let (r, s') = save_transaction_with_outbox h txn now s in
      SaveEnsures h txn now s.committed r s'.committed
unfolding save_transaction_with_outbox
save_transaction_with_outbox_atomic h txn now s =
    >>=-rule (λ r s'. SaveEnsures h txn now s.committed r s'.committed)
      (lift (sanitize_transaction_for_persistence h txn)) _ s (λ e _. inl refl)
      λ safe cleaned.
        or_rollback-rule (SaveEnsures h txn now s.committed) (save_in_transaction h txn safe now) s
          (λ e e' db p. p) (transaction-SaveEnsures h txn safe now s cleaned)
