-- ===== src/RequestHash/Order.antt =====
-- The order of the property names, and that sorting forgets the order in which they came.
use payment_sim.RequestHash.{units, units_le, key_le, insert_sorted}
use payment_sim.Value.{Fields, field, end, Value}
use payment_sim.Prelude.{
  ℕ, String, ◌≡◌, refl, sym, ap, ◌≢◌, inl, inr, true, false, List, [], ◌∷◌, arith, ltb, Bool-cases,
}

units_le_total : (xs ys : List ℕ) → units_le xs ys ≡ false → units_le ys xs ≡ true
unfolding units_le
units_le_total [] ys e = cc
units_le_total (x ∷ xs) [] e = refl
units_le_total (x ∷ xs) (y ∷ ys) e =
    let rest = units_le_total xs ys in
    elim (Bool-cases (ltb x y)) [
      | inl below ↦ absurd (cc (rw below at e))
      | inr above ↦ elim (Bool-cases (ltb y x)) [
        | inl later ↦ rw later
        | inr same ↦ rw (same, above) (rest (rw (above, same) at e))
      ]
    ]

units_le_antisym : (xs ys : List ℕ) → units_le xs ys ≡ true → units_le ys xs ≡ true → xs ≡ ys
unfolding units_le
units_le_antisym [] [] e f = refl
units_le_antisym [] (y ∷ ys) e f = cc
units_le_antisym (x ∷ xs) [] e f = cc
units_le_antisym (x ∷ xs) (y ∷ ys) e f =
    let rest = units_le_antisym xs ys in
    elim (Bool-cases (ltb x y)) [
      | inl below ↦
          let above : ltb y x ≡ false = ground arith in absurd (cc (rw (above, below) at f))
      | inr above ↦ elim (Bool-cases (ltb y x)) [
        | inl later ↦ absurd (cc (rw (above, later) at e))
        | inr same ↦
            let heads : x ≡ y = ground arith in
            let tails = rest (rw (above, same) at e) (rw (same, above) at f) in cc (heads, tails)
      ]
    ]

units_le_trans :
    (xs ys zs : List ℕ) → units_le xs ys ≡ true → units_le ys zs ≡ true → units_le xs zs ≡ true
unfolding units_le
units_le_trans [] ys zs e f = refl
units_le_trans (x ∷ xs) [] zs e f = cc
units_le_trans (x ∷ xs) (y ∷ ys) [] e f = cc
units_le_trans (x ∷ xs) (y ∷ ys) (z ∷ zs) e f = let rest = units_le_trans xs ys zs in ground arith

pub key_le_total : (a b : String) → key_le a b ≡ false → key_le b a ≡ true
unfolding key_le
key_le_total a b = units_le_total (units a) (units b)

key_le_trans : (a b c : String) → key_le a b ≡ true → key_le b c ≡ true → key_le a c ≡ true
unfolding key_le
key_le_trans a b c = units_le_trans (units a) (units b) (units c)

key_le_strict : (a b : String) → units a ≢ units b → key_le a b ≡ true → key_le b a ≡ false
unfolding key_le
key_le_strict a b n e = elim (Bool-cases (units_le (units b) (units a))) [
  | inl back ↦ absurd (n (units_le_antisym (units a) (units b) e back))
  | inr forth ↦ forth
]

-- Two insertions, the lesser name first or last.
insert-ordered :
    (k j : String) (v w : Value) (fs : Fields)
    → key_le k j ≡ true
    → key_le j k ≡ false
    → insert_sorted k v (insert_sorted j w fs) ≡ insert_sorted j w (insert_sorted k v fs)
unfolding insert_sorted
insert-ordered k j v w end below above = rw (below, above)
insert-ordered k j v w (field x u fs) below above =
    let rest = insert-ordered k j v w fs below above in
    elim (Bool-cases (key_le j x)) [
      | inl j_first ↦
          let k_first = key_le_trans k j x below j_first in
          rw (j_first, k_first, below, above, j_first)
      | inr j_later ↦ elim (Bool-cases (key_le k x)) [
        | inl k_first ↦ rw (j_later, k_first, above, j_later)
        | inr k_later ↦ rw (j_later, k_later, j_later) (ap (field x u) rest)
      ]
    ]

pub insert_sorted_comm :
    (k j : String) (v w : Value) (fs : Fields)
    → units k ≢ units j
    → insert_sorted k v (insert_sorted j w fs) ≡ insert_sorted j w (insert_sorted k v fs)
insert_sorted_comm k j v w fs n = elim (Bool-cases (key_le k j)) [
  | inl below ↦ insert-ordered k j v w fs below (key_le_strict k j n below)
  | inr above ↦ sym (insert-ordered j k w v fs (key_le_total k j above) above)
]
