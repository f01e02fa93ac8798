-- ===== src/App/Retry.antt =====
-- `POST /pay` again, with a key under which a transaction is stored.
use payment_sim.App.{
  Response, refusal, spread, pin_verified, request_fields, server_fields, full_fields, Request,
  save_response, pay, accept, with_key, after_validation, after_risk,
}
use payment_sim.App.Ownership.{overridden, get-spread, IsPlain, prop-sanitized, row_of_values}
use payment_sim.Value.{Fields, Value, str, obj, Host, get, prop}
use payment_sim.Config.{Config}
use payment_sim.Sensitive.{
  is_dropped, remove_sensitive_fields, sanitize_transaction_for_persistence, mask_sensitive_data,
}
use payment_sim.Sensitive.Stable.{sanitize_with_card_fields}
use payment_sim.Sensitive.Removal.{sanitize_obj-eq-ok}
use payment_sim.Validation.{valid, validate_transaction}
use payment_sim.Risk.{approve, evaluate_risk}
use payment_sim.RequestHash.{create_request_hash}
use payment_sim.Store.Tables.{Row, Db, first_where, equals?}
use payment_sim.Store.Sql.{◌>>=◌}
use payment_sim.Store.Save.{is_conflict, save_transaction_with_outbox}
use payment_sim.Store.Save.Statements.{
  parameter, parameter_or_null, row_of, transaction_values, has_key,
}
use payment_sim.Store.Save.Idempotency.{duplicate_of, on, save_repeated}
use payment_sim.Prelude.{
  String, ◌≡◌, refl, sym, ap, ◌∙◌, subst, ◌≢◌, inl, inr, false, not, some, arith, ◌==◌, eq_iff,
  if◌then◌else◌, Bool-cases, Option-cases, ok,
}

-- a property that the body does not override, and that sanitizing leaves alone
request_prop :
    (h : Host) (client_id key digest : String) (req : Request) (txn : Fields) (full : Value)
    (k s : String)
    → IsPlain k
    → sanitize_transaction_for_persistence h
        (obj (full_fields req.txn_id client_id key digest req.now_text txn))
      ≡ ok full
    → overridden k
        (server_fields (pin_verified txn) req.now_text)
        (overridden k txn (get k (request_fields req.txn_id client_id key digest)))
      ≡ str s
    → prop k full ≡ str s
unfolding full_fields remove_sensitive_fields
request_prop h client_id key digest req txn full k s p clean own =
    prop-sanitized h k (full_fields req.txn_id client_id key digest req.now_text txn) full p clean
    ∙ ap remove_sensitive_fields (
        get-spread k (spread (request_fields req.txn_id client_id key digest) txn)
          (server_fields (pin_verified txn) req.now_text)
        ∙ ap (overridden k (server_fields (pin_verified txn) req.now_text))
            (get-spread k (request_fields req.txn_id client_id key digest) txn)
        ∙ own)

sanitized_twice :
    (h : Host) (fs : Fields) (full : Value)
    → sanitize_transaction_for_persistence h (obj fs) ≡ ok full
    → sanitize_transaction_for_persistence h full ≡ ok full
sanitized_twice h fs full e =
    let (o, _, same) = sanitize_obj-eq-ok h fs full e in
    subst (λ u. sanitize_transaction_for_persistence h u ≡ ok u) (sym same)
      (sanitize_with_card_fields h fs o)

-- A request that is accepted, and whose body sets neither the key nor the hash of the transaction.
pub record IsAccepted (h : Host) (cfg : Config) (client_id : String) (req : Request)
    (key digest : String) (txn : Fields) (full : Value) (row : Row) : Type 0 where
  pub keyed : req.idempotency_key ≡ some key
  pub given : key ≢ ""
  pub hashed : create_request_hash h req.body ≡ ok digest
  pub logged : (shown : Value) × (mask_sensitive_data h req.body ≡ ok shown)
  pub validated : validate_transaction h cfg req.body ≡ valid txn
  pub approved : evaluate_risk h (obj txn) ≡ approve
  pub sanitized :
      sanitize_transaction_for_persistence h
        (obj (full_fields req.txn_id client_id key digest req.now_text txn))
      ≡ ok full
  pub made : transaction_values h full req.now ≡ ok row
  pub own_key : overridden "idempotencyKey" txn (str key) ≡ str key
  pub own_hash : overridden "requestHash" txn (str digest) ≡ str digest

module _ (h : Host) (cfg : Config) (client_id : String) (req : Request) (key digest : String)
    (txn : Fields) (full : Value) (row : Row) (db : Db) (existing : Row)
    (x : IsAccepted h cfg client_id req key digest txn full row)
    (law : (s : String) → h.pg_text (str s) ≡ s)
    (taken : first_where (has_key (some key)) db.transactions ≡ some existing) where
  full_key : prop "idempotencyKey" full ≡ str key
  unfolding overridden server_fields request_fields get is_dropped
  full_key =
      request_prop h client_id key digest req txn full "idempotencyKey" key
        (record {
          kept = refl;
          not_last4 = refl;
          not_last4_column = refl;
          not_fingerprint = refl;
          not_fingerprint_column = refl;
        })
        x.sanitized x.own_key

  full_hash : prop "requestHash" full ≡ str digest
  unfolding overridden server_fields request_fields get is_dropped
  full_hash =
      request_prop h client_id key digest req txn full "requestHash" digest
        (record {
          kept = refl;
          not_last4 = refl;
          not_last4_column = refl;
          not_fingerprint = refl;
          not_fingerprint_column = refl;
        })
        x.sanitized x.own_hash

  row_key : row.idempotency_key ≡ some key
  unfolding row_of parameter_or_null parameter
  row_key =
      let (id, channel, same) = row_of_values h full req.now row x.made in
      let nonempty : (key == "") ≡ false = ground (arith, eq_iff key "", x.given) in
      ap (λ (r : Row). r.idempotency_key) same ∙ rw (full_key, nonempty, law key)

  saved :
      save_transaction_with_outbox h full req.now (on db) ≡ (ok (duplicate_of full existing), on db)
  unfolding parameter
  saved =
      save_repeated h full full req.now db row existing (sanitized_twice h _ full x.sanitized)
        x.made (rw (full_key, row_key, law key)) (rw row_key taken)

  -- the answer to a request whose key is taken
  abbrev pub repeat_response : Response
  repeat_response =
      if equals? existing.request_hash digest
      then record {
        code = 200;
        status = some existing.status;
        transaction_id = some existing.txn_id;
        reason = some "Duplicate request detected. Returning original transaction.";
      }
      else refusal 409 "Idempotency key already used with different request payload"

  conflict_iff : is_conflict full (some existing) ≡ not (equals? existing.request_hash digest)
  unfolding is_conflict
  conflict_iff = elim (Option-cases existing.request_hash) [
    | inl missing ↦ rw (missing, full_hash)
    | inr (s, stored) ↦ rw (stored, full_hash) (ground (arith, eq_iff digest s, eq_iff s digest))
  ]

  answered : save_response req.txn_id (duplicate_of full existing) ≡ repeat_response
  unfolding save_response
  answered = rw conflict_iff (elim (Bool-cases (equals? existing.request_hash digest)) [
    | inl same ↦ rw same
    | inr differs ↦ rw differs
  ])

  accepted_again : accept h client_id key digest req txn (on db) ≡ (ok repeat_response, on db)
  unfolding accept ◌>>=◌
  accepted_again = rw (x.sanitized, saved, answered)

  -- Asking for a payment again under a key that a stored transaction has stores nothing. The answer
  -- is 200 with the stored transaction if its request hash is that of this request, and 409 if not.
  -- The request is one that would be accepted, its body sets neither the key nor the hash of the
  -- transaction, no statement fails, and the driver is assumed to send a text parameter as it is.
  pub pay_again : pay h cfg client_id req (on db) ≡ (repeat_response, on db)
  unfolding pay with_key after_validation after_risk ◌>>=◌
  pay_again =
      let nonempty : (key == "") ≡ false = ground (arith, eq_iff key "", x.given) in
      let (masked, logged) = x.logged in
      rw (x.keyed, nonempty, x.hashed, logged, x.validated, x.approved, accepted_again)
