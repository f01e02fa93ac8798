-- ===== src/App/Pay.antt =====
-- What `POST /pay` stores, and when.
use payment_sim.App.{
  Response, full_fields, Request, or_500, pay, with_key, after_risk, accept, after_validation,
  text_or_none,
}
use payment_sim.Value.{Value, obj, Fields, Host}
use payment_sim.Config.{Config}
use payment_sim.Sensitive.{sanitize_transaction_for_persistence, mask_sensitive_data}
use payment_sim.Validation.{Verdict, valid, invalid, validate_transaction}
use payment_sim.Risk.{Risk, reject, review, approve, evaluate_risk}
use payment_sim.RequestHash.{create_request_hash}
use payment_sim.Store.Tables.{Row, Db}
use payment_sim.Store.Sql.{Session, lift}
use payment_sim.Store.Sql.Rules.{>>=-rule}
use payment_sim.Store.Save.{SaveResult, save_transaction_with_outbox}
use payment_sim.Store.Save.Inserts.{IsSaved, SaveEnsures}
use payment_sim.Store.Save.Atomic.{save_transaction_with_outbox_atomic}
use payment_sim.Prelude.{
  String, ◌≡◌, refl, ◌⊎◌, inl, inr, Option, none, some, arith, Result, ok, throw,
}

-- A request that passed every check, and the row that was stored for it.
pub record IsStored (h : Host) (cfg : Config) (client_id : String) (req : Request) (old new : Db)
    : Type 0 where
  pub key : String
  pub keyed : req.idempotency_key ≡ some key
  pub digest : String
  pub hashed : create_request_hash h req.body ≡ ok digest
  pub txn : Fields
  pub validated : validate_transaction h cfg req.body ≡ valid txn
  pub approved : evaluate_risk h (obj txn) ≡ approve
  pub full : Value
  pub sanitized :
      sanitize_transaction_for_persistence h
        (obj (full_fields req.txn_id client_id key digest req.now_text txn))
      ≡ ok full
  pub row : Row
  pub saved : IsSaved h full req.now row old new

module _ (h : Host) (cfg : Config) (client_id : String) (req : Request) (s : Session) where
  abbrev Kept : Db → Type 0
  Kept new = (new ≡ s.committed) ⊎ IsStored h cfg client_id req s.committed new

  module _ (key : String) (keyed : req.idempotency_key ≡ some key) (digest : String)
      (hashed : create_request_hash h req.body ≡ ok digest) where
    saved-Kept :
        (txn : Fields) (full : Value)
        → validate_transaction h cfg req.body ≡ valid txn
        → evaluate_risk h (obj txn) ≡ approve
        → sanitize_transaction_for_persistence h
            (obj (full_fields req.txn_id client_id key digest req.now_text txn))
          ≡ ok full
        → Kept (save_transaction_with_outbox h full req.now s).1.committed
    saved-Kept txn full v a c =
        from (save_transaction_with_outbox h full req.now s).0
          (save_transaction_with_outbox_atomic h full req.now s)
      where
        stored :
            {new : Db} (r : Row)
            → IsSaved h full req.now r s.committed new
            → IsStored h cfg client_id req s.committed new
        stored r x = record {
          key = key;
          keyed = keyed;
          digest = digest;
          hashed = hashed;
          txn = txn;
          validated = v;
          approved = a;
          full = full;
          sanitized = c;
          row = r;
          saved = x;
        }

        from :
            (r : Result SaveResult) {new : Db}
            → SaveEnsures h full req.now s.committed r new
            → Kept new
        from (throw e) (inl same) = inl same
        from (throw e) (inr (r, x)) = inr (stored r x)
        from (ok x) (inl (r, _, _, y)) = inr (stored r y)
        from (ok x) (inr (_, same, _, _)) = inl same

    accept-Kept :
        (txn : Fields)
        → validate_transaction h cfg req.body ≡ valid txn
        → evaluate_risk h (obj txn) ≡ approve
        → Kept (accept h client_id key digest req txn s).1.committed
    unfolding accept
    accept-Kept txn v a =
        >>=-rule (λ _ s'. Kept s'.committed) (lift _) _ s (λ e _. inl refl)
          λ full c.
            >>=-rule (λ _ s'. Kept s'.committed) (save_transaction_with_outbox h full req.now) _ s
              (λ e _. saved-Kept txn full v a c) (λ x _. saved-Kept txn full v a c)

    after_risk-Kept :
        (txn : Fields) (risk : Risk)
        → validate_transaction h cfg req.body ≡ valid txn
        → evaluate_risk h (obj txn) ≡ risk
        → Kept (after_risk h client_id key digest req txn risk s).1.committed
    unfolding after_risk
    after_risk-Kept txn (reject reason) v a = inl refl
    after_risk-Kept txn (review reason) v a = inl refl
    after_risk-Kept txn approve v a = accept-Kept txn v a

    after_validation-Kept :
        (verdict : Verdict)
        → validate_transaction h cfg req.body ≡ verdict
        → Kept (after_validation h client_id key digest req verdict s).1.committed
    unfolding after_validation
    after_validation-Kept (invalid reason) v = inl refl
    after_validation-Kept (valid txn) v = after_risk-Kept txn (evaluate_risk h (obj txn)) v refl

  with_key-Kept :
      (key : Option String)
      → text_or_none req.idempotency_key ≡ key
      → Kept (with_key h cfg client_id req key s).1.committed
  unfolding with_key
  with_key-Kept none e = inl refl
  with_key-Kept (some key) e =
      >>=-rule (λ _ s'. Kept s'.committed) (lift (create_request_hash h req.body)) _ s
        (λ e _. inl refl)
        λ digest hashed.
          >>=-rule (λ _ s'. Kept s'.committed) (lift (mask_sensitive_data h req.body)) _ s
            (λ e _. inl refl)
            λ shown _.
              after_validation-Kept key (key_of req.idempotency_key e) digest hashed
                (validate_transaction h cfg req.body) refl
    where
      key_of : (o : Option String) → text_or_none o ≡ some key → o ≡ some key
      key_of none e = cc
      key_of (some k) e = ground arith

-- `POST /pay` stores nothing, or it stores one transaction, with its outbox event, for a request
-- that has an idempotency key and a body to hash, that the validator accepts and the risk rules
-- approve. No failure of a statement gives a third outcome.
pub pay_stores :
    (h : Host) (cfg : Config) (client_id : String) (req : Request) (s : Session)
    → let (_, s') = pay h cfg client_id req s in
      (s'.committed ≡ s.committed) ⊎ IsStored h cfg client_id req s.committed s'.committed
unfolding pay
pay_stores h cfg client_id req s =
    answered (with_key h cfg client_id req (text_or_none req.idempotency_key) s)
      (with_key-Kept h cfg client_id req s (text_or_none req.idempotency_key) refl)
  where
    answered :
        (r : Result Response × Session)
        → Kept h cfg client_id req s r.1.committed
        → Kept h cfg client_id req s (or_500 r).1.committed
    answered (ok r, s') k = k
    answered (throw e, s') k = k
