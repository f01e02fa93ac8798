-- ===== src/Store/Save/Idempotency.antt =====
-- A second save under a key that is taken, on a connection that works.
use payment_sim.Store.Save.{
  SaveResult, is_conflict, save_rest, save_in_transaction, save_transaction_with_outbox, is_null,
  is_str,
}
use payment_sim.Store.Save.Statements.{
  parameter, transaction_values, has_key, insert_row, insert_transaction, select_by_key,
}
use payment_sim.Store.Sql.{Session, query, begin, commit, ◌>>=◌, or_rollback}
use payment_sim.Store.Tables.{Row, Db, first_where}
use payment_sim.Sensitive.{sanitize_transaction_for_persistence}
use payment_sim.Value.{Value, Host, prop, null, str}
use payment_sim.Prelude.{
  refl, ℕ, ◌≡◌, false, none, some, [], ok, Option, true, ◌↔◌, String, not, ◌≢◌, arith,
}
use payment_sim.Validation.Accepts.{is_str_iff}

abbrev pub duplicate_of : Value → Row → SaveResult
duplicate_of txn existing = record {
  inserted = false;
  conflict = is_conflict txn (some existing);
  transaction = some existing;
  outbox_event = none;
}

insert_taken :
    (h : Host) (safe : Value) (now : ℕ) (db : Db) (r existing : Row)
    → transaction_values h safe now ≡ ok r
    → first_where (has_key r.idempotency_key) db.transactions ≡ some existing
    → insert_transaction h safe now db ≡ ok (none, db)
unfolding insert_transaction insert_row
insert_taken h safe now db r existing made taken = rw (made, taken)

abbrev pub on : Db → Session
on db = record { committed = db; working = db; faults = [] }

pub save_repeated :
    (h : Host) (txn safe : Value) (now : ℕ) (db : Db) (r existing : Row)
    → sanitize_transaction_for_persistence h txn ≡ ok safe
    → transaction_values h safe now ≡ ok r
    → parameter h (prop "idempotencyKey" txn) ≡ r.idempotency_key
    → first_where (has_key r.idempotency_key) db.transactions ≡ some existing
    → save_transaction_with_outbox h txn now (on db) ≡ (ok (duplicate_of txn existing), on db)
unfolding save_transaction_with_outbox save_in_transaction save_rest begin query commit or_rollback
    ◌>>=◌ select_by_key
save_repeated h txn safe now db r existing cleaned made key taken =
    rw (cleaned, insert_taken h safe now db r existing made taken, key, taken)

-- A column in a row that the driver answers.
abbrev pub column : Option String → Value
column none = null
column (some s) = str s

is_null_iff : (v : Value) → (is_null v ≡ true) ↔ (v ≡ null)
is_null_iff null = ground arith
is_null_iff _ = ground arith

hash_iff :
    (o : Option String) (v : Value)
    → (elim o [ none ↦ not (is_null v) | some s ↦ not (is_str s v) ] ≡ true) ↔ (v ≢ column o)
hash_iff none v = ground (arith, is_null_iff v)
hash_iff (some s) v = ground (arith, is_str_iff s v)

-- Saving under an idempotency key that a row has answers with that row and stores nothing. The answer
-- is a conflict exactly if the new request hash differs from the row's, which may be NULL. No
-- statement is assumed to fail, the transaction is one that can be sanitized and has the columns that
-- must not be NULL, and sanitizing it keeps its key.
pub save_duplicate :
    (h : Host) (txn safe : Value) (now : ℕ) (db : Db) (r existing : Row)
    → sanitize_transaction_for_persistence h txn ≡ ok safe
    → transaction_values h safe now ≡ ok r
    → parameter h (prop "idempotencyKey" txn) ≡ r.idempotency_key
    → first_where (has_key r.idempotency_key) db.transactions ≡ some existing
    → (x : SaveResult) × (save_transaction_with_outbox h txn now (on db) ≡ (ok x, on db))
      × (x.inserted ≡ false)
      × (x.transaction ≡ some existing)
      × ((x.conflict ≡ true) ↔ (prop "requestHash" txn ≢ column existing.request_hash))
unfolding is_conflict
save_duplicate h txn safe now db r existing cleaned made key taken = (
  duplicate_of txn existing,
  save_repeated h txn safe now db r existing cleaned made key taken,
  refl,
  refl,
  hash_iff existing.request_hash (prop "requestHash" txn),
)
