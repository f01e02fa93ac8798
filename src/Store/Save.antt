-- ===== src/Store/Save.antt =====
-- `insertOutboxEvent` and `saveTransactionWithOutbox` of store/store.js.
pub mod Statements
pub mod Inserts
pub mod Atomic
pub mod Idempotency
use payment_sim.Store.Sql.{Sql, query, begin, commit, lift, ◌>>=◌, ◌>>◌, or_rollback}
use payment_sim.Store.Tables.{Row, Event}
use payment_sim.Store.Save.Statements.{parameter, insert_transaction, select_by_key, insert_event}
use payment_sim.Sensitive.{sanitize_transaction_for_persistence, sanitize_payload}
use payment_sim.Value.{Value, Host, is_str, is_null, prop}
use payment_sim.Prelude.{ℕ, Bool, true, false, not, Option, none, some, if◌then◌else◌, ok}

unfoldable pub insert_outbox_event : Host → Value → ℕ → Sql (Option Event)
insert_outbox_event h txn now = do
  payload ← lift (sanitize_payload h txn)
  query (insert_event h txn payload now)

pub record SaveResult : Type 0 where
  pub inserted : Bool
  pub conflict : Bool
  pub transaction : Option Row
  pub outbox_event : Option Event

-- `!existing || existing.request_hash !== txn.requestHash`
unfoldable pub is_conflict : Value → Option Row → Bool
is_conflict txn none = true
is_conflict txn (some r) = elim r.request_hash [
  | none ↦ not (is_null (prop "requestHash" txn))
  | some s ↦ not (is_str s (prop "requestHash" txn))
]

-- what follows the INSERT of the transaction
pub save_rest : Host → Value → Value → ℕ → Option Row → Sql SaveResult
save_rest h txn safe now none = do
  existing ← query (select_by_key (parameter h (prop "idempotencyKey" txn)))
  commit
  lift (
      ok (record {
        inserted = false;
        conflict = is_conflict txn existing;
        transaction = existing;
        outbox_event = none;
      }))
save_rest h txn safe now (some r) = do
  event ← insert_outbox_event h safe now
  commit
  lift (
      ok (record { inserted = true; conflict = false; transaction = some r; outbox_event = event }))

pub save_in_transaction : Host → Value → Value → ℕ → Sql SaveResult
save_in_transaction h txn safe now = do
  begin
  inserted ← query (insert_transaction h safe now)
  save_rest h txn safe now inserted

unfoldable pub save_transaction_with_outbox : Host → Value → ℕ → Sql SaveResult
unfolding save_in_transaction save_rest
save_transaction_with_outbox h txn now = do
  safe ← lift (sanitize_transaction_for_persistence h txn)
  or_rollback (save_in_transaction h txn safe now)
