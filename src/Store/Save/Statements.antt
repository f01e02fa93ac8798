-- ===== src/Store/Save/Statements.antt =====
-- The statements of `saveTransactionWithOutbox` and their parameters.
use Prim.Native.String
use payment_sim.Store.Tables.{
  status_of_text, Row, pending, Event, Db, first_where, is_some, equals?,
}
use payment_sim.Value.{
  Value, undefined, null, num, str, arr, Items, nil, Host, truthy, or_value, prop,
}
use payment_sim.Value.Numbers.{of_ℕ}
use payment_sim.Prelude.{
  ℕ, suc, String, Bool, false, Option, none, some, [], ◌∷◌, ◌++◌, ◌==◌, ◌>>=◌, if◌then◌else◌,
  Result, ok, throw,
}

-- A parameter of a statement: `undefined` and `null` are NULL.
unfoldable pub parameter : Host → Value → Option String
parameter h undefined = none
parameter h null = none
parameter h v = some (h.pg_text v)

-- `v || null` as a parameter
unfoldable pub parameter_or_null : Host → Value → Option String
unfolding parameter
parameter_or_null h v = if truthy v then parameter h v else none

abbrev pub not_null : String → Option String → Result String
not_null column none = throw (String.◌++◌ "null value violates not-null constraint: " column)
not_null column (some s) = ok s

-- `v || []` of a stored timeline
abbrev pub items_of : Value → Items
items_of (arr xs) = xs
items_of v = nil

-- the row that the values of the INSERT make
unfoldable pub row_of : Host → Value → ℕ → String → String → Row
row_of h txn now id channel = record {
  txn_id = id;
  correlation_id = h.pg_text (or_value (prop "correlationId" txn) (str "N/A"));
  idempotency_key = parameter_or_null h (prop "idempotencyKey" txn);
  request_hash = parameter_or_null h (prop "requestHash" txn);
  client_id = parameter_or_null h (prop "clientId" txn);
  amount = prop "amount" txn;
  channel = channel;
  card_last4 = parameter_or_null h (prop "cardLast4" txn);
  card_fingerprint = parameter_or_null h (prop "cardFingerprint" txn);
  status = status_of_text (h.pg_text (or_value (prop "status" txn) (str "ACCEPTED")));
  from_account = parameter_or_null h (prop "fromAccount" txn);
  to_account = parameter_or_null h (prop "toAccount" txn);
  type = parameter_or_null h (prop "type" txn);
  retry_count = or_value (prop "retryCount" txn) (num (of_ℕ 0));
  worker_id = none;
  route = none;
  reason = none;
  result = none;
  processing_timeline = items_of (prop "processingTimeline" txn);
  processing_started_at = none;
  processor_instance_id = none;
  last_heartbeat_at = none;
  lease_expires_at = none;
  updated_at = now;
}

-- the values of the INSERT, in its order
unfoldable pub transaction_values : Host → Value → ℕ → Result Row
transaction_values h txn now = do
  id ← not_null "txn_id" (parameter h (prop "id" txn))
  amount ← not_null "amount" (parameter h (prop "amount" txn))
  channel ← not_null "channel" (parameter h (prop "channel" txn))
  ok (row_of h txn now id channel)

-- The index on `idempotency_key` ignores NULL.
abbrev pub has_key : Option String → Row → Bool
has_key none r = false
has_key (some k) r = equals? r.idempotency_key k

abbrev pub has_id : String → Row → Bool
has_id id r = r.txn_id == id

-- ON CONFLICT (idempotency_key) DO NOTHING; a taken `txn_id` is an error.
unfoldable pub insert_row : Row → Db → Result (Option Row × Db)
unfolding first_where
insert_row r db =
    if is_some (first_where (has_key r.idempotency_key) db.transactions)
    then ok (none, db)
    else if is_some (first_where (has_id r.txn_id) db.transactions)
    then throw "duplicate key value violates unique constraint \"transactions_txn_id_key\""
    else ok (some r, record db { transactions = db.transactions ++ r ∷ [] })

-- INSERT INTO transactions ... RETURNING *
unfoldable pub insert_transaction : Host → Value → ℕ → Db → Result (Option Row × Db)
insert_transaction h txn now db = do r ← transaction_values h txn now; insert_row r db

-- SELECT * FROM transactions WHERE idempotency_key = $1
unfoldable pub select_by_key : Option String → Db → Result (Option Row × Db)
unfolding first_where
select_by_key key db = ok (first_where (has_key key) db.transactions, db)

abbrev pub event_of : String → Event → Bool
event_of id e = e.txn_id == id

abbrev pub new_event : ℕ → String → Value → ℕ → Event
new_event id txn_id payload now = record {
  id = id;
  txn_id = txn_id;
  event_type = "TRANSACTION_ACCEPTED";
  payload = payload;
  status = pending;
  attempts = 0;
  claim_count = 0;
  recovery_count = 0;
  claimed_at = none;
  locked_by = none;
  last_error = none;
  created_at = now;
  updated_at = now;
}

-- ON CONFLICT (txn_id) DO NOTHING. The serial id is taken also when nothing is inserted.
unfoldable pub insert_event_row : String → Value → ℕ → Db → Option Event × Db
unfolding first_where
insert_event_row txn_id payload now db =
    let e = new_event db.next_event_id txn_id payload now in
    let db' = record db { next_event_id = suc db.next_event_id } in
    if is_some (first_where (event_of txn_id) db.outbox_events)
    then (none, db')
    else (some e, record db' { outbox_events = db'.outbox_events ++ e ∷ [] })

-- INSERT INTO outbox_events ... RETURNING *
unfoldable pub insert_event : Host → Value → Value → ℕ → Db → Result (Option Event × Db)
insert_event h txn payload now db = do
  id ← not_null "txn_id" (parameter h (prop "id" txn))
  ok (insert_event_row id payload now db)
