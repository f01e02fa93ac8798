-- ===== src/Store/Tables.antt =====
-- The tables `transactions`, `outbox_events` and `dead_letter_jobs` as lists of rows, oldest first.
-- A timestamp is a number of milliseconds. The columns that no statement of the program reads back
-- (serial ids of transactions and dead-letter jobs, `received_at`, `created_at` of transactions)
-- are left out.
use payment_sim.Prelude.{
  ℕ, String, ◌≡◌, refl, ap, inl, inr, Bool, true, false, Option, none, some, List, [], ◌∷◌, map,
  ◌==◌, if◌then◌else◌, Bool-cases,
}
use payment_sim.Value.{Value, Items}

pub data Status : Type 0 where
  accepted processing completed declined failed : Status
  other : String → Status

-- The status column holds a text.
abbrev pub status_of_text : String → Status
status_of_text s =
    if s == "ACCEPTED"
    then accepted
    else if s == "PROCESSING"
    then processing
    else if s == "COMPLETED"
    then completed
    else if s == "DECLINED"
    then declined
    else if s == "FAILED"
    then failed
    else other s

pub record Row : Type 0 where
  pub txn_id : String
  pub correlation_id : String
  pub idempotency_key : Option String
  pub request_hash : Option String
  pub client_id : Option String
  pub amount : Value
  pub channel : String
  pub card_last4 : Option String
  pub card_fingerprint : Option String
  pub status : Status
  pub from_account : Option String
  pub to_account : Option String
  pub type : Option String
  pub retry_count : Value
  pub worker_id : Option ℕ
  pub route : Option String
  pub reason : Option String
  pub result : Option Value
  pub processing_timeline : Items
  pub processing_started_at : Option ℕ
  pub processor_instance_id : Option String
  pub last_heartbeat_at : Option ℕ
  pub lease_expires_at : Option ℕ
  pub updated_at : ℕ

pub data EventStatus : Type 0 where
  pending processing sent outbox_failed : EventStatus

pub record Event : Type 0 where
  pub id : ℕ
  pub txn_id : String
  pub event_type : String
  pub payload : Value
  pub status : EventStatus
  pub attempts : ℕ
  pub claim_count : ℕ
  pub recovery_count : ℕ
  pub claimed_at : Option ℕ
  pub locked_by : Option String
  pub last_error : Option String
  pub created_at : ℕ
  pub updated_at : ℕ

pub record DeadLetter : Type 0 where
  pub job_id : String
  pub txn_id : Option String
  pub queue_name : String
  pub payload : Value
  pub failed_reason : String
  pub attempts_made : ℕ
  pub failed_at : ℕ

pub record Db : Type 0 where
  pub transactions : List Row
  pub outbox_events : List Event
  pub dead_letter_jobs : List DeadLetter
  pub next_event_id : ℕ

-- `UPDATE ... SET f WHERE p`
unfoldable pub update_where {ℓ} : {A : Type ℓ} → (A → Bool) → (A → A) → List A → List A
update_where p f [] = []
update_where p f (r ∷ rs) = (if p r then f r else r) ∷ update_where p f rs

-- `SELECT ... WHERE p`, the first row
unfoldable pub first_where {ℓ} : {A : Type ℓ} → (A → Bool) → List A → Option A
first_where p [] = none
first_where p (r ∷ rs) = if p r then some r else first_where p rs

-- The first row of `RETURNING`.
unfoldable pub returned {ℓ} : {A : Type ℓ} → (A → Bool) → (A → A) → List A → Option A
unfolding first_where
returned p f rs = elim (first_where p rs) [ none ↦ none | some r ↦ some (f r) ]

-- `COALESCE(new, old)`
abbrev pub coalesce {ℓ} : {A : Type ℓ} → Option A → A → A
coalesce none old = old
coalesce (some new) old = new

abbrev pub coalesce? {ℓ} : {A : Type ℓ} → Option A → Option A → Option A
coalesce? none old = old
coalesce? (some new) old = some new

abbrev pub is_some {ℓ} : {A : Type ℓ} → Option A → Bool
is_some none = false
is_some (some a) = true

-- `column = 'text'` of a column that may be null
abbrev pub equals? : Option String → String → Bool
equals? none s = false
equals? (some t) s = t == s

abbrev pub is_accepted : Status → Bool
is_accepted accepted = true
is_accepted _ = false

abbrev pub is_processing : Status → Bool
is_processing Status.processing = true
is_processing _ = false

pub map-update_where {ℓ κ} :
    {A : Type ℓ} {B : Type κ} (g : A → B) (p : A → Bool) (f : A → A) (rs : List A)
    → ((r : A) → g (f r) ≡ g r)
    → map g (update_where p f rs) ≡ map g rs
unfolding update_where
map-update_where g p f [] h = refl
map-update_where g p f (r ∷ rs) h =
    let rest = map-update_where g p f rs h in
    elim (Bool-cases (p r)) [
      | inl hit ↦ rw (hit, h r) (ap (◌∷◌ (g r)) rest)
      | inr miss ↦ rw miss (ap (◌∷◌ (g r)) rest)
    ]
