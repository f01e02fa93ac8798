-- ===== src/Sensitive/Stable.antt =====
-- Sanitizing twice: `app.js` sanitizes, then `store.js` and the worker sanitize again.
use payment_sim.Prelude.{
  String, ◌≡◌, refl, sym, ap, ◌∙◌, subst, inl, inr, true, false, Option, none, some, arith, ◌==◌,
  eq_iff, Bool-cases, ok, ◌>>=◌,
}
use payment_sim.Value.{
  Value, undefined, null, bool, num, str, arr, obj, Items, nil, cons, Fields, end, field, Host, get,
  set_prop,
}
use payment_sim.Sensitive.{
  only_digits, card_last4, card_fingerprint, is_sensitive_key, is_dropped, remove_sensitive_fields,
  remove_items, remove_fields, add_text, card_number_of, with_card_fields,
  sanitize_transaction_for_persistence, sanitize_payload,
}
use payment_sim.Sensitive.Removal.{
  IsAllowed, HaveClean, next, with_card_fields-HaveClean, sanitize_obj-eq-ok,
}

not_allowed : (k : String) → IsAllowed k → is_sensitive_key k ≡ false
unfolding is_sensitive_key
not_allowed k a = ground (arith, eq_iff k "pin", eq_iff k "cardNumber", eq_iff k "card_number")

pub get-HaveClean :
    (k : String) (fs : Fields) → HaveClean fs → is_sensitive_key k ≡ true → get k fs ≡ undefined
unfolding get
get-HaveClean k end c e = refl
get-HaveClean k (field j v fs) (next a _ c) e =
    ground (arith, eq_iff j k, not_allowed j a, get-HaveClean k fs c e)

mutual
  unfolding remove_sensitive_fields

  remove_twice :
      (v : Value) → remove_sensitive_fields (remove_sensitive_fields v) ≡ remove_sensitive_fields v
  remove_twice undefined = refl
  remove_twice null = refl
  remove_twice (bool b) = refl
  remove_twice (num n) = refl
  remove_twice (str s) = refl
  remove_twice (arr xs) = ap arr (remove_items_twice xs)
  remove_twice (obj fs) = ap obj (remove_fields_twice fs)

  remove_items_twice : (xs : Items) → remove_items (remove_items xs) ≡ remove_items xs
  remove_items_twice nil = refl
  remove_items_twice (cons v xs) = cc (remove_twice v, remove_items_twice xs)

  remove_fields_twice : (fs : Fields) → remove_fields (remove_fields fs) ≡ remove_fields fs
  remove_fields_twice end = refl
  remove_fields_twice (field k v fs) =
      let rest = remove_fields_twice fs in
      let here = remove_twice v in
      elim (Bool-cases (is_dropped k)) [
        | inl dropped ↦ rw dropped rest
        | inr kept ↦ rw (kept, kept) (cc (here, rest))
      ]

-- The same key is dropped or kept alike.
kept_of_same : (j k : String) → (j == k) ≡ true → is_dropped k ≡ false → is_dropped j ≡ false
kept_of_same j k same e = ap is_dropped ((eq_iff j k).0 same) ∙ e

remove_fields-set_prop :
    (k s : String) (fs : Fields)
    → is_dropped k ≡ false
    → remove_fields (set_prop k (str s) fs) ≡ set_prop k (str s) (remove_fields fs)
unfolding remove_sensitive_fields set_prop
remove_fields-set_prop k s end e = rw e
remove_fields-set_prop k s (field j v fs) e =
    let ih = remove_fields-set_prop k s fs e in
    elim (Bool-cases (j == k)) [
      | inl same ↦ let kept = kept_of_same j k same e in rw (same, kept, same)
      | inr other ↦ elim (Bool-cases (is_dropped j)) [
        | inl gone ↦ rw (other, gone) ih
        | inr kept ↦ rw (other, kept, other) (ap (field j (remove_sensitive_fields v)) ih)
      ]
    ]

remove_fields-add_text :
    (o : Option String) (camel snake : String) (fs : Fields)
    → is_dropped camel ≡ false
    → is_dropped snake ≡ false
    → remove_fields (add_text o camel snake fs) ≡ add_text o camel snake (remove_fields fs)
unfolding add_text
remove_fields-add_text none camel snake fs e f = refl
remove_fields-add_text (some s) camel snake fs e f =
    remove_fields-set_prop snake s (set_prop camel (str s) fs) f
    ∙ ap (set_prop snake (str s)) (remove_fields-set_prop camel s fs e)

pub remove_fields-with_card_fields :
    (h : Host) (fs : Fields) (o : Option String)
    → remove_fields (with_card_fields h fs o) ≡ with_card_fields h fs o
unfolding with_card_fields is_dropped
remove_fields-with_card_fields h fs o =
    let last4 = card_last4 h (card_number_of (obj fs)) in
    remove_fields-add_text o "cardFingerprint" "card_fingerprint"
      (add_text last4 "cardLast4" "card_last4" (remove_fields fs)) refl refl
    ∙ ap (add_text o "cardFingerprint" "card_fingerprint") (
        remove_fields-add_text last4 "cardLast4" "card_last4" (remove_fields fs) refl refl
        ∙ ap (add_text last4 "cardLast4" "card_last4") (remove_fields_twice fs))

no_card_number :
    (fs : Fields)
    → get "cardNumber" fs ≡ undefined
    → get "card_number" fs ≡ undefined
    → card_number_of (obj fs) ≡ undefined
no_card_number fs p q = rw (p, q)

no_card_last4 : (h : Host) → card_last4 h undefined ≡ none
unfolding card_last4 only_digits
no_card_last4 h = refl

no_card_fingerprint : (h : Host) → card_fingerprint h undefined ≡ ok none
unfolding card_fingerprint only_digits
no_card_fingerprint h = refl

-- Without a card number sanitizing only removes.
pub sanitize_obj_no_card :
    (h : Host) (fs : Fields)
    → get "cardNumber" fs ≡ undefined
    → get "card_number" fs ≡ undefined
    → sanitize_transaction_for_persistence h (obj fs) ≡ ok (obj (remove_fields fs))
unfolding sanitize_transaction_for_persistence with_card_fields add_text
sanitize_obj_no_card h fs p q =
    subst
      (λ v.
        (card_fingerprint h v >>= λ o. ok (
          obj (
            add_text o "cardFingerprint" "card_fingerprint"
              (add_text (card_last4 h v) "cardLast4" "card_last4" (remove_fields fs)))))
        ≡ ok (obj (remove_fields fs)))
      (sym (no_card_number fs p q)) (rw (no_card_fingerprint h, no_card_last4 h))

pub sanitize_with_card_fields :
    (h : Host) (fs : Fields) (o : Option String)
    → sanitize_transaction_for_persistence h (obj (with_card_fields h fs o))
      ≡ ok (obj (with_card_fields h fs o))
unfolding is_sensitive_key
sanitize_with_card_fields h fs o =
    let clean = with_card_fields-HaveClean h fs o in
    sanitize_obj_no_card h (with_card_fields h fs o) (get-HaveClean "cardNumber" _ clean refl)
      (get-HaveClean "card_number" _ clean refl)
    ∙ ap (λ (u : Fields). ok (obj u)) (remove_fields-with_card_fields h fs o)

-- Sanitizing a sanitized value again succeeds and changes nothing, so the card digits and the
-- fingerprint that the first call stored survive the later ones.
pub sanitize_payload_idempotent :
    (h : Host) (v w : Value) → sanitize_payload h v ≡ ok w → sanitize_payload h w ≡ ok w
unfolding sanitize_payload sanitize_transaction_for_persistence remove_sensitive_fields
sanitize_payload_idempotent h (obj fs) w e =
    let (o, _, p) = sanitize_obj-eq-ok h fs w e in
    subst (λ u. sanitize_payload h u ≡ ok u) (sym p) (sanitize_with_card_fields h fs o)
sanitize_payload_idempotent h (arr xs) w e =
    let p : arr (remove_items xs) ≡ w = ground arith in
    subst (λ u. sanitize_payload h u ≡ ok u) p
      (ap (λ (u : Items). ok (arr u)) (remove_items_twice xs))
sanitize_payload_idempotent h undefined w e =
    let p : undefined ≡ w = ground arith in subst (λ u. sanitize_payload h u ≡ ok u) p refl
sanitize_payload_idempotent h null w e =
    let p : null ≡ w = ground arith in subst (λ u. sanitize_payload h u ≡ ok u) p refl
sanitize_payload_idempotent h (bool b) w e =
    let p : bool b ≡ w = ground arith in subst (λ u. sanitize_payload h u ≡ ok u) p refl
sanitize_payload_idempotent h (num n) w e =
    let p : num n ≡ w = ground arith in subst (λ u. sanitize_payload h u ≡ ok u) p refl
sanitize_payload_idempotent h (str s) w e =
    let p : str s ≡ w = ground arith in subst (λ u. sanitize_payload h u ≡ ok u) p refl

-- Removal leaves every other property where it was, itself sanitized.
pub get-remove_fields :
    (k : String) (fs : Fields)
    → is_dropped k ≡ false
    → get k (remove_fields fs) ≡ remove_sensitive_fields (get k fs)
unfolding remove_sensitive_fields get
get-remove_fields k end e = refl
get-remove_fields k (field j v fs) e =
    let ih = get-remove_fields k fs e in
    elim (Bool-cases (j == k)) [
      | inl same ↦ let kept = kept_of_same j k same e in rw (same, kept, same)
      | inr other ↦ elim (Bool-cases (is_dropped j)) [
        | inl gone ↦ rw (other, gone) ih
        | inr kept ↦ rw (other, kept, other) ih
      ]
    ]
