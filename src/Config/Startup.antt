-- ===== src/Config/Startup.antt =====
-- What the checks at start-up buy later calls.
use payment_sim.Prelude.{
  String, ◌≡◌, refl, inl, inr, true, false, Option, none, some, arith, ◌==◌, Bool-cases,
  Option-cases, ok,
}
use payment_sim.Value.{Value, obj, Host}
use payment_sim.Sensitive.{
  dev_card_fingerprint_secret, env_text, is_production, get_card_fingerprint_secret, only_digits,
  card_fingerprint, remove_sensitive_fields, card_number_of, with_card_fields,
  sanitize_transaction_for_persistence, sanitize_payload,
}
use payment_sim.Config.{validate_runtime_configuration, is_missing}

some_of_not_missing : (o : Option String) → is_missing o ≡ false → (s : String) × (o ≡ some s)
some_of_not_missing none e = cc
some_of_not_missing (some s) e = (s, refl)

secret_is_set :
    (env : String → Option String)
    → validate_runtime_configuration env ≡ ok tt
    → is_production env ≡ true
    → (s : String) × (env_text env "CARD_FINGERPRINT_SECRET" ≡ some s)
unfolding validate_runtime_configuration
secret_is_set env e p = some_of_not_missing (env_text env "CARD_FINGERPRINT_SECRET") (ground arith)

get_secret-ok :
    (env : String → Option String)
    → validate_runtime_configuration env ≡ ok tt
    → (s : String) × (get_card_fingerprint_secret env ≡ ok s)
unfolding get_card_fingerprint_secret
get_secret-ok env e = elim (Bool-cases (is_production env)) [
  | inl production ↦
      let (s, set) = secret_is_set env e production in (s, rw (set, get_card_fingerprint_secret))
  | inr other ↦ elim (Option-cases (env_text env "CARD_FINGERPRINT_SECRET")) [
    | inl unset ↦ (dev_card_fingerprint_secret, rw (unset, other, get_card_fingerprint_secret))
    | inr (s, set) ↦ (s, rw (set, get_card_fingerprint_secret))
  ]
]

card_fingerprint-ok :
    (h : Host) (v : Value) (s : String)
    → get_card_fingerprint_secret h.env ≡ ok s
    → (o : Option String) × (card_fingerprint h v ≡ ok o)
unfolding card_fingerprint
card_fingerprint-ok h v s e = elim (Bool-cases (only_digits h v == "")) [
  | inl empty ↦ (none, rw empty)
  | inr digits ↦ (some (h.hmac_sha256 s (only_digits h v)), rw (digits, e))
]

-- In an environment that passes the start-up check sanitizing does not throw.
pub sanitize_payload_after_check :
    (h : Host) (v : Value)
    → validate_runtime_configuration h.env ≡ ok tt
    → (w : Value) × (sanitize_payload h v ≡ ok w)
unfolding sanitize_payload sanitize_transaction_for_persistence
sanitize_payload_after_check h (obj fs) e =
    let (s, p) = get_secret-ok h.env e in
    let (o, q) = card_fingerprint-ok h (card_number_of (obj fs)) s p in
    (obj (with_card_fields h fs o), rw q)
sanitize_payload_after_check h v e = (remove_sensitive_fields v, refl)
