-- ===== src/Sensitive/Removal.antt =====
-- No sensitive key survives, at any depth; everything else does.
use payment_sim.Prelude.{
  String, Bool, false, ◌≡◌, ◌≢◌, inl, inr, refl, ◌==◌, eq_iff, arith, Bool-cases, Option, none,
  some, subst, ok, >>=-eq-ok, sym,
}
use payment_sim.Value.{
  Value, undefined, null, bool, num, str, arr, obj, Items, nil, cons, Fields, end, field, get,
  set_prop, delete_prop, Host,
}
use payment_sim.Sensitive.{
  remove_sensitive_fields, remove_items, remove_fields, add_text,
  sanitize_transaction_for_persistence, sanitize_payload, card_number_of, card_fingerprint,
  with_card_fields, is_dropped,
}

-- `Clean v`: no object inside `v` has a property named `pin`, `cardNumber` or `card_number`.
abbrev pub IsAllowed : String → Type 0
IsAllowed k = (k ≢ "pin") × (k ≢ "cardNumber") × (k ≢ "card_number")

mutual
  pub data IsClean : Value → Type 0 where
    an_undefined : IsClean undefined
    a_null : IsClean null
    a_bool : {b : Bool} → IsClean (bool b)
    a_num : {n : payment_sim.Value.Numbers.Num} → IsClean (num n)
    a_str : {s : String} → IsClean (str s)
    an_arr : {xs : Items} → AreClean xs → IsClean (arr xs)
    an_obj : {fs : Fields} → HaveClean fs → IsClean (obj fs)

  pub data AreClean : Items → Type 0 where
    done : AreClean nil
    more : {v : Value} {xs : Items} → IsClean v → AreClean xs → AreClean (cons v xs)

  pub data HaveClean : Fields → Type 0 where
    last : HaveClean end
    next :
        {k : String} {v : Value} {fs : Fields}
        → IsAllowed k
        → IsClean v
        → HaveClean fs
        → HaveClean (field k v fs)

pub IsAllowed-of_test : (k : String) → is_dropped k ≡ false → IsAllowed k
unfolding is_dropped
IsAllowed-of_test k h =
    ground (arith, eq_iff k "pin", eq_iff k "cardNumber", eq_iff k "card_number")

mutual
  unfolding remove_sensitive_fields

  remove-IsClean : (v : Value) → IsClean (remove_sensitive_fields v)
  remove-IsClean undefined = an_undefined
  remove-IsClean null = a_null
  remove-IsClean (bool b) = a_bool
  remove-IsClean (num n) = a_num
  remove-IsClean (str s) = a_str
  remove-IsClean (arr xs) = an_arr (remove_items-AreClean xs)
  remove-IsClean (obj fs) = an_obj (remove_fields-HaveClean fs)

  remove_items-AreClean : (xs : Items) → AreClean (remove_items xs)
  remove_items-AreClean nil = done
  remove_items-AreClean (cons v xs) = more (remove-IsClean v) (remove_items-AreClean xs)

  pub remove_fields-HaveClean : (fs : Fields) → HaveClean (remove_fields fs)
  remove_fields-HaveClean end = last
  remove_fields-HaveClean (field k v fs) =
      let rest = remove_fields-HaveClean fs in
      let here = remove-IsClean v in
      elim (Bool-cases (is_dropped k)) [
        | inl dropped ↦ rw dropped rest
        | inr kept ↦ rw kept (next (IsAllowed-of_test k kept) here rest)
      ]

pub set_prop-HaveClean :
    (k s : String) (fs : Fields) → IsAllowed k → HaveClean fs → HaveClean (set_prop k (str s) fs)
unfolding set_prop
set_prop-HaveClean k s end a h = next a a_str h
set_prop-HaveClean k s (field j v fs) a (next b c h) =
    let rest = set_prop-HaveClean k s fs a h in
    elim (Bool-cases (j == k)) [
      | inl same ↦ rw same (next b a_str h)
      | inr other ↦ rw other (next b c rest)
    ]

pub add_text-HaveClean :
    (o : Option String) (camel snake : String) (fs : Fields)
    → IsAllowed camel
    → IsAllowed snake
    → HaveClean fs
    → HaveClean (add_text o camel snake fs)
unfolding add_text
add_text-HaveClean none camel snake fs a b h = h
add_text-HaveClean (some s) camel snake fs a b h =
    set_prop-HaveClean snake s _ b (set_prop-HaveClean camel s fs a h)

pub with_card_fields-HaveClean :
    (h : Host) (fs : Fields) (o : Option String) → HaveClean (with_card_fields h fs o)
unfolding with_card_fields is_dropped
with_card_fields-HaveClean h fs o =
    add_text-HaveClean o _ _ _ (IsAllowed-of_test _ refl) (IsAllowed-of_test _ refl) (
      add_text-HaveClean _ _ _ _ (IsAllowed-of_test _ refl) (IsAllowed-of_test _ refl)
        (remove_fields-HaveClean fs))

-- What a successful call returns for an object.
pub sanitize_obj-eq-ok :
    (h : Host) (fs : Fields) (w : Value)
    → sanitize_transaction_for_persistence h (obj fs) ≡ ok w
    → (o : Option String) × (card_fingerprint h (card_number_of (obj fs)) ≡ ok o)
      × (w ≡ obj (with_card_fields h fs o))
unfolding sanitize_transaction_for_persistence
sanitize_obj-eq-ok h fs w e =
    let (o, p, q) =
      >>=-eq-ok (card_fingerprint h (card_number_of (obj fs)))
        (λ o. ok (obj (with_card_fields h fs o))) e in
    (o, p, ground arith)

-- Whatever is sanitized for storage, a queue or a dead-letter record, the result holds no property
-- named `pin`, `cardNumber` or `card_number`, at any depth.
pub sanitize_payload-IsClean : (h : Host) (v w : Value) → sanitize_payload h v ≡ ok w → IsClean w
unfolding sanitize_payload sanitize_transaction_for_persistence
sanitize_payload-IsClean h (obj fs) w e =
    let (o, _, p) = sanitize_obj-eq-ok h fs w e in
    subst IsClean (sym p) (an_obj (with_card_fields-HaveClean h fs o))
sanitize_payload-IsClean h v w e =
    let p : remove_sensitive_fields v ≡ w = ground arith in subst IsClean p (remove-IsClean v)
