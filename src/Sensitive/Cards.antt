-- ===== src/Sensitive/Cards.antt =====
-- What is shown of a card number: at most its last four digits.
use payment_sim.Prelude.{
  ◌∷◌, [], ◌≤◌, String, ◌≡◌, refl, subst, ◌≢◌, inl, inr, true, false, Option, none, some, arith,
  ◌==◌, eq_iff, leb, if◌then◌else◌, Bool-cases, ok, Option-cases, ◌⊎◌, All, sym, eq_refl, ap,
}
use payment_sim.Value.{
  Value, undefined, str, obj, Fields, end, field, Host, get, set_prop, delete_prop,
}
use payment_sim.Sensitive.{
  chars, last_four, only_digits, card_last4, is_sensitive_key, is_dropped, remove_sensitive_fields,
  remove_fields, card_number_of, delete_fingerprint, serialize_transaction_response, mask_fields,
  mask_sensitive_data, Char,
}
use payment_sim.Sensitive.Removal.{
  HaveClean, last, next, remove_fields-HaveClean, set_prop-HaveClean, IsAllowed-of_test,
}
use payment_sim.Sensitive.Stable.{get-HaveClean, get-remove_fields}
use Prim.Native.String

last_four-chars : (s : String) → chars (last_four s) ≤ 4
unfolding last_four
last_four-chars String.[] = omega arith
last_four-chars (String.◌∷◌ c s) = ground (arith, last_four-chars s)

-- `IsTail t s`: `t` is what is left of `s` after some first characters.
pub data IsTail (t : String) : String → Type 0 where
  whole : IsTail t t
  later : {s : String} (c : Char) → IsTail t s → IsTail t (String.◌∷◌ c s)

last_four-IsTail : (s : String) → IsTail (last_four s) s
unfolding last_four
last_four-IsTail String.[] = whole
last_four-IsTail (String.◌∷◌ c s) =
    let rest = last_four-IsTail s in
    elim (Bool-cases (leb (chars s) 3)) [
      | inl short ↦ rw short whole
      | inr long ↦ rw long (later c rest)
    ]

-- `card_last4` shows a tail of the digits, four characters at most.
card_last4-IsTail :
    (h : Host) (v : Value) (s : String)
    → card_last4 h v ≡ some s
    → IsTail s (only_digits h v) × (chars s ≤ 4)
unfolding card_last4
card_last4-IsTail h v s e =
    let p : last_four (only_digits h v) ≡ s = ground arith in
    subst (λ t. IsTail t (only_digits h v) × (chars t ≤ 4)) p
      (last_four-IsTail (only_digits h v), last_four-chars (only_digits h v))

pub get-set_prop :
    (k j : String) (v : Value) (fs : Fields)
    → get j (set_prop k v fs) ≡ (if k == j then v else get j fs)
unfolding get set_prop
get-set_prop k j v end = refl
get-set_prop k j v (field i w fs) =
    ground (arith, eq_iff k j, eq_iff i k, eq_iff i j, get-set_prop k j v fs)

pub get-delete_prop :
    (k j : String) (fs : Fields)
    → get j (delete_prop k fs) ≡ (if k == j then undefined else get j fs)
unfolding get delete_prop
get-delete_prop k j end = ground arith
get-delete_prop k j (field i w fs) =
    ground (arith, eq_iff k j, eq_iff i k, eq_iff i j, get-delete_prop k j fs)

delete_prop-HaveClean : (k : String) (fs : Fields) → HaveClean fs → HaveClean (delete_prop k fs)
unfolding delete_prop
delete_prop-HaveClean k end c = last
delete_prop-HaveClean k (field j v fs) (next a b c) =
    let rest = delete_prop-HaveClean k fs c in
    elim (Bool-cases (j == k)) [ inl same ↦ rw same rest | inr other ↦ rw other (next a b rest) ]

-- A response holds no sensitive key at any depth, and no card fingerprint.
pub serialize_transaction_response_safe :
    (txn : Fields)
    → HaveClean (serialize_transaction_response txn)
      × (get "cardFingerprint" (serialize_transaction_response txn) ≡ undefined)
      × (get "card_fingerprint" (serialize_transaction_response txn) ≡ undefined)
unfolding serialize_transaction_response
serialize_transaction_response_safe txn = (
  delete_prop-HaveClean _ _ (delete_prop-HaveClean _ _ (remove_fields-HaveClean txn)),
  simp get-delete_prop,
  simp get-delete_prop,
)

-- Every property of the stored transaction is in the response, sanitized, but for the three of the
-- card's number and PIN, the two of its fingerprint, and `__proto__`.
pub serialize_transaction_response_keeps :
    (txn : Fields) (k : String)
    → All
        (λ j. k ≢ j)
        ("pin" ∷ "cardNumber" ∷ "card_number" ∷ "cardFingerprint" ∷ "card_fingerprint" ∷ "__proto__"
          ∷ [])
    → get k (serialize_transaction_response txn) ≡ remove_sensitive_fields (get k txn)
unfolding serialize_transaction_response
serialize_transaction_response_keeps txn k (pin, (camel, (snake, (p, (q, (proto, _)))))) =
    let kept : is_dropped k ≡ false =
      unfold is_dropped is_sensitive_key in
      ground (
        arith,
        eq_iff k "pin",
        eq_iff k "cardNumber",
        eq_iff k "card_number",
        eq_iff k "__proto__",
      ) in
    simp get-delete_prop (
      ground (
        arith,
        eq_iff "card_fingerprint" k,
        eq_iff "cardFingerprint" k,
        get-remove_fields k txn kept,
      ))

abbrev masked : Option String → Value
masked none = undefined
masked (some last4) = str (String.◌++◌ "****" last4)

abbrev IsMasked : Option String → Fields → Type 0
IsMasked last4 u =
    (get "pin" u ≡ undefined)
    × (get "cardFingerprint" u ≡ undefined)
    × (get "card_fingerprint" u ≡ undefined)
    × (get "card_number" u ≡ undefined)
    × (get "cardNumber" u ≡ masked last4)

get-deleted :
    (k : String) (fs : Fields)
    → HaveClean fs
    → is_sensitive_key k ≡ true
    → get k (delete_fingerprint fs) ≡ undefined
get-deleted k fs c e = get-HaveClean k _ (delete_prop-HaveClean _ _ (delete_prop-HaveClean _ _ c)) e

mask_fields-IsMasked :
    (o : Option String) (fs : Fields)
    → HaveClean fs
    → IsMasked o (mask_fields o (delete_fingerprint fs))
unfolding mask_fields is_sensitive_key
mask_fields-IsMasked none fs c = (
  get-deleted "pin" fs c refl,
  simp get-delete_prop,
  simp get-delete_prop,
  get-deleted "card_number" fs c refl,
  get-deleted "cardNumber" fs c refl,
)
mask_fields-IsMasked (some s) fs c = (
  simp get-set_prop (get-deleted "pin" fs c refl),
  simp (get-set_prop, get-delete_prop),
  simp (get-set_prop, get-delete_prop),
  simp get-set_prop (get-deleted "card_number" fs c refl),
  simp get-set_prop,
)

-- A text shows at most the last four of the digits, behind four stars.
abbrev pub ShowsLastFour : String → Value → Type 0
ShowsLastFour digits v =
    (v ≡ undefined)
    ⊎ (t : String) × (v ≡ str (String.◌++◌ "****" t)) × IsTail t digits × (chars t ≤ 4)

masked-ShowsLastFour :
    (h : Host) (card : Value) → ShowsLastFour (only_digits h card) (masked (card_last4 h card))
masked-ShowsLastFour h card = elim (Option-cases (card_last4 h card)) [
  | inl none_shown ↦ inl (ap masked none_shown)
  | inr (t, shown) ↦
      let (tail, short) = card_last4-IsTail h card t shown in inr (t, ap masked shown, tail, short)
]

delete-set_prop :
    (k : String) (v : Value) (fs : Fields) → delete_prop k (set_prop k v fs) ≡ delete_prop k fs
unfolding delete_prop set_prop
delete-set_prop k v end = ground (arith, eq_refl k)
delete-set_prop k v (field j w fs) = elim (Bool-cases (j == k)) [
  | inl same ↦ rw (same, same) refl
  | inr other ↦ rw (other, other) (ap (field j w) (delete-set_prop k v fs))
]

others-HaveClean :
    (o : Option String) (fs : Fields)
    → HaveClean fs
    → HaveClean (delete_prop "cardNumber" (mask_fields o fs))
unfolding mask_fields is_dropped is_sensitive_key
others-HaveClean none fs c = delete_prop-HaveClean "cardNumber" fs c
others-HaveClean (some t) fs c = subst HaveClean (sym (delete-set_prop "cardNumber" _ _)) (
    delete_prop-HaveClean "cardNumber" _
      (set_prop-HaveClean "cardLast4" t fs (IsAllowed-of_test "cardLast4" refl) c))

-- What is logged of a transaction: under `cardNumber` stars and at most the last four of the card's
-- digits, no fingerprint, and elsewhere, at any depth, no property for a PIN or a card number.
pub mask_sensitive_data_safe :
    (h : Host) (fs : Fields)
    → (u : Fields) × (mask_sensitive_data h (obj fs) ≡ ok (obj u))
      × ShowsLastFour (only_digits h (card_number_of (obj fs))) (get "cardNumber" u)
      × HaveClean (delete_prop "cardNumber" u)
      × (get "cardFingerprint" u ≡ undefined)
      × (get "card_fingerprint" u ≡ undefined)
unfolding mask_sensitive_data is_dropped is_sensitive_key
mask_sensitive_data_safe h fs =
    let card = card_number_of (obj fs) in
    let clean = remove_fields-HaveClean fs in
    let (_, camel, snake, _, shown) =
      mask_fields-IsMasked (card_last4 h card) (remove_fields fs) clean in
    (
      _,
      refl,
      subst (ShowsLastFour (only_digits h card)) (sym shown) (masked-ShowsLastFour h card),
      others-HaveClean (card_last4 h card) _
          (delete_prop-HaveClean _ _ (delete_prop-HaveClean _ _ clean)),
      camel,
      snake,
    )
