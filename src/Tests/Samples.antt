-- ===== src/Tests/Samples.antt =====
-- A small host, and a request that it can serve.
use payment_sim.Value.{Value, num, str, obj, nil, Fields, end, field, Host}
use payment_sim.Value.Numbers.{nan, of_ℕ}
use payment_sim.Config.{Config}
use payment_sim.App.{Request}
use payment_sim.Store.Tables.{Status, Row, Db}
use payment_sim.Prelude.{String, ◌≢◌, none, some, [], ◌∷◌, ◌==◌}

abbrev pub text_of : Value → String
text_of (str s) = s
text_of v = ""

-- An engine that cannot tell digests or printed numbers apart, with no environment set.
abbrev pub small_host : Host
small_host = record {
  number_of_string = λ s. nan;
  string_of_number = λ n. "0";
  sha256 = λ s. "digest";
  hmac_sha256 = λ key s. "mac";
  env = λ name. none;
  pg_text = text_of;
  timing_safe_equal = λ a b. a == b;
}

abbrev pub small_config : Config
small_config = record {
  port = of_ℕ 3000;
  worker_count = of_ℕ 3;
  max_retries = of_ℕ 3;
  transaction_limit = of_ℕ 10000;
  default_balance = of_ℕ 5000;
  inquiry_balance = of_ℕ 2500;
}

abbrev pub purchase : Fields
purchase = field "amount" (num (of_ℕ 120)) (
    field "fromAccount" (str "A1") (
      field "toAccount" (str "B2") (
        field "type" (str "PURCHASE") (
          field "channel" (str "DOMESTIC_POS") (
            field "issuerType" (str "INTERNAL")
              (field "cardNumber" (str "4111111111111111") (field "pin" (str "TEST_PIN") end)))))))

abbrev pub purchase_request : Request
purchase_request = record {
  idempotency_key = some "key-1";
  body = obj purchase;
  txn_id = "txn-1";
  now_text = "2024-01-01T00:00:00.000Z";
  now = 1000;
}

-- the same request by a client that claims to be another
abbrev pub spoofed_request : Request
spoofed_request = record purchase_request { body = obj (field "clientId" (str "victim") purchase) }

abbrev pub empty_db : Db
empty_db = record {
  transactions = [];
  outbox_events = [];
  dead_letter_jobs = [];
  next_event_id = 1;
}

abbrev pub sample_row : Status → Row
sample_row status = record {
  txn_id = "txn-1";
  correlation_id = "N/A";
  idempotency_key = some "key-1";
  request_hash = some "digest";
  client_id = some "client-1";
  amount = num (of_ℕ 120);
  channel = "DOMESTIC_POS";
  card_last4 = some "1111";
  card_fingerprint = some "mac";
  status = status;
  from_account = some "A1";
  to_account = some "B2";
  type = some "PURCHASE";
  retry_count = num (of_ℕ 0);
  worker_id = none;
  route = none;
  reason = none;
  result = none;
  processing_timeline = nil;
  processing_started_at = none;
  processor_instance_id = none;
  last_heartbeat_at = none;
  lease_expires_at = none;
  updated_at = 1000;
}

abbrev pub db_with : Status → Db
db_with status = record empty_db { transactions = sample_row status ∷ [] }

abbrev pub Differ : String → String → Type 0
Differ a b = a ≢ b
