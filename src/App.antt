-- ===== src/App.antt =====
-- app.js: the routes `POST /pay` and `GET /status/:id`
pub mod Ownership
pub mod Pay
pub mod Retry
pub mod Server
use payment_sim.Value.{
  Value, bool, num, str, arr, obj, nil, cons, Fields, end, field, Host, is_str, get, set_prop,
}
use payment_sim.Value.Numbers.{of_ℕ}
use payment_sim.Config.{Config}
use payment_sim.Sensitive.{sanitize_transaction_for_persistence, mask_sensitive_data}
use payment_sim.Validation.{Verdict, valid, invalid, validate_transaction}
use payment_sim.Risk.{Risk, reject, review, approve, evaluate_risk}
use payment_sim.RequestHash.{create_request_hash}
use payment_sim.Auth.{client, api_key_or_admin_auth, can_access_transaction_status}
use payment_sim.Store.Tables.{Status, accepted, Row, Db}
use payment_sim.Store.Sql.{Session, Sql, answer, after, lift, ◌>>=◌, ◌>>◌}
use payment_sim.Store.Save.{SaveResult, save_transaction_with_outbox}
use payment_sim.Store.Updates.{get_transaction}
use payment_sim.Prelude.{
  ℕ, String, Bool, true, not, ◌&&◌, Option, none, some, ◌==◌, if◌then◌else◌, Result, ok, throw,
}

-- What a route answers: the HTTP status, and the fields of the JSON body that it sets.
pub record Response : Type 0 where
  pub code : ℕ
  pub status : Option Status
  pub transaction_id : Option String
  pub reason : Option String

abbrev pub refusal : ℕ → String → Response
refusal code reason = record {
  code = code;
  status = none;
  transaction_id = none;
  reason = some reason;
}

-- `{ ...base, ...fs }`
unfoldable pub spread : Fields → Fields → Fields
unfolding set_prop
spread base end = base
spread base (field k v fs) = spread (set_prop k v base) fs

-- The PIN is asked of an internal issuer, but not for a balance inquiry.
unfoldable pub pin_verified : Fields → Bool
pin_verified txn =
    let requires_pin =
      is_str "INTERNAL" (get "issuerType" txn) && not (is_str "BALANCE_INQUIRY" (get "type" txn)) in
    if requires_pin then is_str "TEST_PIN" (get "pin" txn) else true

unfoldable pub accepted_entry : String → Value
accepted_entry now = obj (
    field "status" (str "ACCEPTED")
      (field "timestamp" (str now) (field "message" (str "Transaction accepted by API") end)))

-- the properties that `/pay` sets before it spreads the body over them
unfoldable pub request_fields : String → String → String → String → Fields
request_fields id client_id key hash = field "id" (str id) (
    field "clientId" (str client_id)
      (field "idempotencyKey" (str key) (field "requestHash" (str hash) end)))

-- the properties that it sets after the body
unfoldable pub server_fields : Bool → String → Fields
unfolding accepted_entry
server_fields verified now = field "pinVerified" (bool verified) (
    field "status" (str "ACCEPTED") (
      field "retryCount" (num (of_ℕ 0)) (
        field "createdAt" (str now) (
          field "updatedAt" (str now)
            (field "processingTimeline" (arr (cons (accepted_entry now) nil)) end)))))

-- the object that is sanitized into `fullTxn`
unfoldable pub full_fields : String → String → String → String → String → Fields → Fields
unfolding spread request_fields server_fields pin_verified
full_fields id client_id key hash now txn =
    spread (spread (request_fields id client_id key hash) txn)
      (server_fields (pin_verified txn) now)

-- What the handler reads of a request, of the clock and of the random generator.
pub record Request : Type 0 where
  pub idempotency_key : Option String
  pub body : Value
  pub txn_id : String
  pub now_text : String
  pub now : ℕ

-- the answer to the save of an accepted transaction
unfoldable pub save_response : String → SaveResult → Response
save_response id r =
    if r.inserted
    then record {
      code = 202;
      status = some accepted;
      transaction_id = some id;
      reason = some "Transaction accepted for processing";
    }
    else if r.conflict
    then refusal 409 "Idempotency key already used with different request payload"
    else elim r.transaction [
      | none ↦ refusal 500 "Internal server error"
      | some row ↦ record {
        code = 200;
        status = some row.status;
        transaction_id = some row.txn_id;
        reason = some "Duplicate request detected. Returning original transaction.";
      }
    ]

-- what follows the risk check: the answer, or the error that `catch` turns into 500
accept : Host → String → String → String → Request → Fields → Sql Response
accept h client_id key hash req txn = do
  full ← lift (
      sanitize_transaction_for_persistence h
        (obj (full_fields req.txn_id client_id key hash req.now_text txn)))
  saved ← save_transaction_with_outbox h full req.now
  lift (ok (save_response req.txn_id saved))

after_risk : Host → String → String → String → Request → Fields → Risk → Sql Response
after_risk h client_id key hash req txn (reject reason) = lift (ok (refusal 403 reason))
after_risk h client_id key hash req txn (review reason) = lift (ok (refusal 202 reason))
after_risk h client_id key hash req txn approve = accept h client_id key hash req txn

after_validation : Host → String → String → String → Request → Verdict → Sql Response
after_validation h client_id key hash req (invalid reason) = lift (ok (refusal 400 reason))
after_validation h client_id key hash req (valid txn) =
    after_risk h client_id key hash req txn (evaluate_risk h (obj txn))

with_key : Host → Config → String → Request → Option String → Sql Response
with_key h cfg client_id req none = lift (ok (refusal 400 "Missing x-idempotency-key header"))
with_key h cfg client_id req (some key) = do
  digest ← lift (create_request_hash h req.body)
  shown ← lift (mask_sensitive_data h req.body)
  after_validation h client_id key digest req (validate_transaction h cfg req.body)

-- `catch (error)` of the handler
abbrev pub or_500 : Result Response × Session → Response × Session
or_500 (ok r, s) = (r, s)
or_500 (throw e, s) = (refusal 500 "Internal server error", s)

-- An empty header counts as missing.
abbrev text_or_none : Option String → Option String
text_or_none none = none
text_or_none (some s) = if s == "" then none else some s

-- `POST /pay` behind `apiKeyAuth`, for an authenticated client
unfoldable pub pay : Host → Config → String → Request → Session → Response × Session
unfolding with_key after_validation after_risk accept
pay h cfg client_id req s =
    or_500 (with_key h cfg client_id req (text_or_none req.idempotency_key) s)

pub data StatusAnswer : Type 0 where
  unauthorized not_found forbidden : StatusAnswer
  shown : Row → StatusAnswer

-- `GET /status/:id`; the row is shown by `serializeTransactionResponse`
unfoldable pub get_status : Host → Option String → Option String → String → Db → StatusAnswer
get_status h admin_key key id db = elim (api_key_or_admin_auth h admin_key key) [
  | none ↦ unauthorized
  | some auth ↦ elim (get_transaction id db) [
    | none ↦ not_found
    | some row ↦ if can_access_transaction_status auth row then shown row else forbidden
  ]
]
