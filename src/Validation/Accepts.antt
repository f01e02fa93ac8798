-- ===== src/Validation/Accepts.antt =====
-- When the validator accepts a request body, and what it makes of it.
use payment_sim.Prelude.{
  ◌≤◌, String, ◌≡◌, refl, ap, ◌∙◌, ◌≢◌, ◌↔◌, ◌⊎◌, Bool, true, false, not, ◌&&◌, List, [], ◌∷◌,
  arith, eq_iff, ltb, All,
}
use payment_sim.Value.{
  Value, undefined, null, str, Fields, Host, truthy, is_str, prop, to_string, to_number,
}
use payment_sim.Value.Numbers.{ℤ, finite, of_ℕ, num_lt, num_le, is_finite}
use payment_sim.Config.{
  Config, supported_issuer_types, supported_networks, supported_transaction_types,
  supported_channels,
}
use payment_sim.Validation.{
  Verdict, valid, is_absent, includes, missing_fields, length_utf16, accepted_transaction,
  reject_if, check_fields,
}

-- `v` is one of the listed texts.
abbrev pub IsOneOf : List String → Value → Type 0
IsOneOf [] v = ⊥
IsOneOf (x ∷ xs) v = (v ≡ str x) ⊎ IsOneOf xs v

pub is_str_iff : (s : String) (v : Value) → (is_str s v ≡ true) ↔ (v ≡ str s)
is_str_iff s (str t) = ground (arith, eq_iff t s)
is_str_iff s undefined = ground arith
is_str_iff s _ = ground arith

pub includes_iff : (xs : List String) (v : Value) → (includes xs v ≡ true) ↔ IsOneOf xs v
unfolding includes
includes_iff [] v = ground arith
includes_iff (x ∷ xs) v = ground (arith, is_str_iff x v, includes_iff xs v)

abbrev pub IsPresent : Value → Type 0
IsPresent v = (v ≢ undefined) × (v ≢ null) × (v ≢ str "")

is_absent_iff : (v : Value) → (is_absent v ≡ false) ↔ IsPresent v
is_absent_iff (str s) = ground (arith, eq_iff s "")
is_absent_iff undefined = ground arith
is_absent_iff _ = ground arith

pub missing_fields_iff :
    (txn : Value) (ks : List String)
    → (missing_fields txn ks ≡ []) ↔ All (λ k. IsPresent (prop k txn)) ks
unfolding missing_fields
missing_fields_iff txn [] = ground arith
missing_fields_iff txn (k ∷ ks) =
    ground (arith, is_absent_iff (prop k txn), missing_fields_iff txn ks)

-- What a request has to satisfy, in terms of its properties.
pub record IsAcceptable (h : Host) (cfg : Config) (txn : Value) (amount : ℤ) : Type 0 where
  pub present :
      All
        (λ k. IsPresent (prop k txn))
        ("amount" ∷ "fromAccount" ∷ "toAccount" ∷ "type" ∷ "channel" ∷ "issuerType" ∷ [])
  pub numeric : to_number h (prop "amount" txn) ≡ finite amount
  pub positive :
      (prop "type" txn ≡ str "BALANCE_INQUIRY") ⊎ (num_lt (of_ℕ 0) (finite amount) ≡ true)
  pub limited : num_lt cfg.transaction_limit (finite amount) ≡ false
  pub type_known :
      IsOneOf
        ("PURCHASE" ∷ "CASH_WITHDRAWAL" ∷ "BALANCE_INQUIRY" ∷ "REVERSAL" ∷ [])
        (prop "type" txn)
  pub issuer_known : IsOneOf ("INTERNAL" ∷ "EXTERNAL" ∷ []) (prop "issuerType" txn)
  pub channel_known :
      IsOneOf
        ("DOMESTIC_ATM" ∷ "INTERNATIONAL_ATM" ∷ "DOMESTIC_POS" ∷ "INTERNATIONAL_POS" ∷ "ECOM" ∷ [])
        (prop "channel" txn)
  pub network_known :
      ((truthy (prop "network" txn) ≡ false) × (prop "issuerType" txn ≡ str "INTERNAL"))
      ⊎ IsOneOf ("EXTERNAL_PROCESSOR" ∷ "CARD_NETWORK" ∷ []) (prop "network" txn)
  pub card_long_enough :
      (truthy (prop "cardNumber" txn) ≡ false)
      ⊎ (4 ≤ length_utf16 (to_string h (prop "cardNumber" txn)))

-- The tests of `check_fields` that a request passed.
pub record Passes (h : Host) (cfg : Config) (txn : Value) : Type 0 where
  pub finite_amount : is_finite (to_number h (prop "amount" txn)) ≡ true
  pub positive :
      not (is_str "BALANCE_INQUIRY" (prop "type" txn))
        && num_le (to_number h (prop "amount" txn)) (of_ℕ 0)
      ≡ false
  pub limited : num_lt cfg.transaction_limit (to_number h (prop "amount" txn)) ≡ false
  pub type_known : includes supported_transaction_types (prop "type" txn) ≡ true
  pub issuer_known : includes supported_issuer_types (prop "issuerType" txn) ≡ true
  pub channel_known : includes supported_channels (prop "channel" txn) ≡ true
  pub network_given :
      is_str "EXTERNAL" (prop "issuerType" txn) && not (truthy (prop "network" txn)) ≡ false
  pub network_known :
      truthy (prop "network" txn) && not (includes supported_networks (prop "network" txn)) ≡ false
  pub card :
      truthy (prop "cardNumber" txn) && ltb (length_utf16 (to_string h (prop "cardNumber" txn))) 4
      ≡ false

pub passed :
    (b : Bool) (reason : String) (rest : Verdict) {t : Fields}
    → reject_if b reason rest ≡ valid t
    → (b ≡ false) × (rest ≡ valid t)
unfolding reject_if
passed true reason rest e = cc
passed false reason rest e = (refl, e)

pub not_rejected :
    (b : Bool) (reason : String) (rest : Verdict) → b ≡ false → reject_if b reason rest ≡ rest
unfolding reject_if
not_rejected b reason rest e = rw e

pub Passes-of_valid :
    (h : Host) (cfg : Config) (txn : Value) {t : Fields}
    → check_fields h cfg txn ≡ valid t
    → Passes h cfg txn × (t ≡ accepted_transaction txn (to_number h (prop "amount" txn)))
unfolding check_fields
Passes-of_valid h cfg txn e =
    let (a, e1) = passed _ _ _ e in
    let (b, e2) = passed _ _ _ e1 in
    let (c, e3) = passed _ _ _ e2 in
    let (d, e4) = passed _ _ _ e3 in
    let (f, e5) = passed _ _ _ e4 in
    let (g, e6) = passed _ _ _ e5 in
    let (i, e7) = passed _ _ _ e6 in
    let (j, e8) = passed _ _ _ e7 in
    let (k, e9) = passed _ _ _ e8 in
    (
      record {
        finite_amount = ground (arith, a);
        positive = b;
        limited = c;
        type_known = ground (arith, d);
        issuer_known = ground (arith, f);
        channel_known = ground (arith, g);
        network_given = i;
        network_known = j;
        card = k;
      },
      cc e9,
    )

pub valid_of_Passes :
    (h : Host) (cfg : Config) (txn : Value)
    → Passes h cfg txn
    → check_fields h cfg txn ≡ valid (accepted_transaction txn (to_number h (prop "amount" txn)))
unfolding check_fields
valid_of_Passes h cfg txn p =
    not_rejected _ _ _ (ap not p.finite_amount)
    ∙ not_rejected _ _ _ p.positive
    ∙ not_rejected _ _ _ p.limited
    ∙ not_rejected _ _ _ (ap not p.type_known)
    ∙ not_rejected _ _ _ (ap not p.issuer_known)
    ∙ not_rejected _ _ _ (ap not p.channel_known)
    ∙ not_rejected _ _ _ p.network_given
    ∙ not_rejected _ _ _ p.network_known
    ∙ not_rejected _ _ _ p.card
