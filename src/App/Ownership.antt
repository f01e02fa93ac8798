-- ===== src/App/Ownership.antt =====
-- Which properties of a stored transaction the server sets, and which the body can set.
use payment_sim.App.{spread, pin_verified, request_fields, server_fields, full_fields, Request}
use payment_sim.App.Pay.{IsStored}
use payment_sim.Auth.{client, can_access_transaction_status}
use payment_sim.Value.{Value, str, obj, Fields, end, field, Host, get, prop, set_prop}
use payment_sim.Config.{Config}
use payment_sim.Sensitive.{
  is_dropped, remove_sensitive_fields, remove_fields, add_text, with_card_fields,
  sanitize_transaction_for_persistence,
}
use payment_sim.Sensitive.Stable.{sanitize_with_card_fields, get-remove_fields}
use payment_sim.Sensitive.Removal.{sanitize_obj-eq-ok}
use payment_sim.Sensitive.Cards.{get-set_prop}
use payment_sim.Store.Tables.{accepted, Row, Db}
use payment_sim.Store.Save.Statements.{parameter, parameter_or_null, row_of, transaction_values}
use payment_sim.Prelude.{
  ℕ, String, ◌≡◌, refl, sym, ap, ◌∙◌, subst, ◌≢◌, inl, inr, true, false, Option, none, some, arith,
  ◌==◌, eq_iff, eq_refl, if◌then◌else◌, Option-cases, Result, ok, throw,
}

-- What the property `k` becomes when `fs` is spread over an object where it is `v`.
unfoldable pub overridden : String → Fields → Value → Value
overridden k end v = v
overridden k (field j w fs) v = overridden k fs (if j == k then w else v)

pub get-spread :
    (k : String) (base fs : Fields) → get k (spread base fs) ≡ overridden k fs (get k base)
unfolding spread overridden
get-spread k base end = refl
get-spread k base (field j w fs) =
    get-spread k (set_prop j w base) fs ∙ ap (overridden k fs) (get-set_prop j k w base)

get-add_text :
    (k : String) (o : Option String) (camel snake : String) (fs : Fields)
    → (camel == k) ≡ false
    → (snake == k) ≡ false
    → get k (add_text o camel snake fs) ≡ get k fs
unfolding add_text
get-add_text k none camel snake fs a b = refl
get-add_text k (some s) camel snake fs a b =
    get-set_prop snake k (str s) (set_prop camel (str s) fs)
    ∙ rw b (get-set_prop camel k (str s) fs ∙ rw a)

-- Sanitizing neither drops `k` nor sets it.
pub record IsPlain (k : String) : Type 0 where
  pub kept : is_dropped k ≡ false
  pub not_last4 : ("cardLast4" == k) ≡ false
  pub not_last4_column : ("card_last4" == k) ≡ false
  pub not_fingerprint : ("cardFingerprint" == k) ≡ false
  pub not_fingerprint_column : ("card_fingerprint" == k) ≡ false

get-with_card_fields :
    (h : Host) (k : String) (fs : Fields) (o : Option String)
    → IsPlain k
    → get k (with_card_fields h fs o) ≡ remove_sensitive_fields (get k fs)
unfolding with_card_fields
get-with_card_fields h k fs o p =
    get-add_text k o "cardFingerprint" "card_fingerprint" _ p.not_fingerprint
      p.not_fingerprint_column
    ∙ get-add_text k _ "cardLast4" "card_last4" (remove_fields fs) p.not_last4 p.not_last4_column
    ∙ get-remove_fields k fs p.kept

-- What a plain property of a sanitized object is.
pub prop-sanitized :
    (h : Host) (k : String) (fs : Fields) (w : Value)
    → IsPlain k
    → sanitize_transaction_for_persistence h (obj fs) ≡ ok w
    → prop k w ≡ remove_sensitive_fields (get k fs)
prop-sanitized h k fs w p e =
    let (o, _, same) = sanitize_obj-eq-ok h fs w e in
    subst (λ v. prop k v ≡ remove_sensitive_fields (get k fs)) (sym same)
      (get-with_card_fields h k fs o p)

-- The row that an INSERT makes.
abbrev value_or : Row → Result Row → Row
value_or a (ok b) = b
value_or a (throw m) = a

pub row_of_values :
    (h : Host) (txn : Value) (now : ℕ) (r : Row)
    → transaction_values h txn now ≡ ok r
    → (id : String) × (channel : String) × (r ≡ row_of h txn now id channel)
unfolding transaction_values
row_of_values h txn now r e = elim (Option-cases (parameter h (prop "id" txn))) [
  | inl a ↦ absurd (cc (rw (a, transaction_values) at e))
  | inr (id, a) ↦ elim (Option-cases (parameter h (prop "amount" txn))) [
    | inl b ↦ absurd (cc (rw (a, b, transaction_values) at e))
    | inr (amount, b) ↦ elim (Option-cases (parameter h (prop "channel" txn))) [
      | inl c ↦ absurd (cc (rw (a, b, c, transaction_values) at e))
      | inr (channel, c) ↦
          (id, channel, ap (value_or r) (sym (rw (a, b, c, transaction_values) at e)))
    ]
  ]
]

pub sanitized_again :
    (h : Host) (fs : Fields) (stored safe : Value)
    → sanitize_transaction_for_persistence h (obj fs) ≡ ok stored
    → sanitize_transaction_for_persistence h stored ≡ ok safe
    → safe ≡ stored
sanitized_again h fs stored safe e e' =
    let (o, _, same) = sanitize_obj-eq-ok h fs stored e in
    let again = sanitize_with_card_fields h fs o in
    let e'' : sanitize_transaction_for_persistence h (obj (with_card_fields h fs o)) ≡ ok safe =
      subst (λ v. sanitize_transaction_for_persistence h v ≡ ok safe) same e' in
    cc (again, e'', same)

-- What the columns of a stored transaction hold, in terms of the object that `/pay` built.
module _ (h : Host) (cfg : Config) (client_id : String) (req : Request) (old new : Db)
    (x : IsStored h cfg client_id req old new) where
  abbrev pub built : Fields
  built = full_fields req.txn_id client_id x.key x.digest req.now_text x.txn

  pub stored_values :
      (id : String) × (channel : String) × (x.row ≡ row_of h x.full req.now id channel)
  stored_values =
      let (safe, cleaned, made) = x.saved.values in
      row_of_values h x.full req.now x.row (
        subst (λ v. transaction_values h v req.now ≡ ok x.row)
          (sanitized_again h built x.full safe x.sanitized cleaned) made)

  stored_prop : (k : String) → IsPlain k → prop k x.full ≡ remove_sensitive_fields (get k built)
  stored_prop k p = prop-sanitized h k built x.full p x.sanitized

  built_prop :
      (k : String)
      → get k built
        ≡ overridden k
            (server_fields (pin_verified x.txn) req.now_text)
            (overridden k x.txn (get k (request_fields req.txn_id client_id x.key x.digest)))
  unfolding full_fields
  built_prop k =
      get-spread k (spread (request_fields req.txn_id client_id x.key x.digest) x.txn)
        (server_fields (pin_verified x.txn) req.now_text)
      ∙ ap (overridden k (server_fields (pin_verified x.txn) req.now_text))
          (get-spread k (request_fields req.txn_id client_id x.key x.digest) x.txn)

  -- A transaction is stored as ACCEPTED, whatever status the body gives. The driver is assumed to
  -- send a text parameter as it is.
  pub stored_status : (law : (s : String) → h.pg_text (str s) ≡ s) → x.row.status ≡ accepted
  unfolding overridden server_fields remove_sensitive_fields is_dropped row_of
  stored_status law =
      let (id, channel, same) = stored_values in
      let p : prop "status" x.full ≡ str "ACCEPTED" =
        stored_prop "status" (record {
          kept = refl;
          not_last4 = refl;
          not_last4_column = refl;
          not_fingerprint = refl;
          not_fingerprint_column = refl;
        })
        ∙ ap remove_sensitive_fields (built_prop "status") in
      ap (λ (r : Row). r.status) same ∙ rw (p, law "ACCEPTED")

  stored_client :
      x.row.client_id
      ≡ parameter_or_null h (remove_sensitive_fields (overridden "clientId" x.txn (str client_id)))
  unfolding overridden server_fields request_fields is_dropped row_of get
  stored_client =
      let (id, channel, same) = stored_values in
      let p =
        stored_prop "clientId" (record {
          kept = refl;
          not_last4 = refl;
          not_last4_column = refl;
          not_fingerprint = refl;
          not_fingerprint_column = refl;
        })
        ∙ ap remove_sensitive_fields (built_prop "clientId") in
      ap (λ (r : Row). r.client_id) same ∙ ap (parameter_or_null h) p

  -- The owner of a stored transaction is the body's `clientId`, where the body has a text under
  -- that name that is not empty: that client can read the status, and the client that the API key
  -- authenticated cannot, if it is another one. The driver is assumed to send a text parameter as it
  -- is.
  pub stored_owner :
      (owner : String)
      → overridden "clientId" x.txn (str client_id) ≡ str owner
      → owner ≢ ""
      → client_id ≢ owner
      → ((s : String) → h.pg_text (str s) ≡ s)
      → (can_access_transaction_status (client owner) x.row ≡ true)
        × (can_access_transaction_status (client client_id) x.row ≡ false)
  unfolding can_access_transaction_status
  stored_owner owner e nonempty differs law =
      let owned : x.row.client_id ≡ some owner =
        stored_client
        ∙ unfold remove_sensitive_fields parameter_or_null parameter in
          rw e (ground (arith, eq_iff owner "", law owner)) in
      rw owned (eq_refl owner, ground (arith, eq_iff owner client_id))
