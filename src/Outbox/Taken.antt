-- ===== src/Outbox/Taken.antt =====
-- How many events a claim takes off those that wait.
use payment_sim.Outbox.{is_pending, claimable_event, has_event_id, id_among}
use payment_sim.Store.Tables.{Event}
use payment_sim.Prelude.{
  ℕ, zero, suc, ◌-◌, ◌≤◌, ◌≡◌, refl, ap, subst, inl, inr, Bool, true, false, not, ◌&&◌, ◌||◌, none,
  List, [], ◌∷◌, arith, if◌then◌else◌, Bool-cases, length, take, select, All, All-imp,
}

abbrev pub waits : Event → Bool
waits e = is_pending e.status

pub length-select-le {ℓ} :
    {A : Type ℓ} (p : A → Bool) (xs : List A) → length (select p xs) ≤ length xs
length-select-le p [] = omega arith
length-select-le p (x ∷ xs) =
    let ih = length-select-le p xs in
    elim (Bool-cases (p x)) [ inl hit ↦ rw hit (omega arith) | inr miss ↦ rw miss (omega arith) ]

-- A list whose first `n` members are left out.
left_out :
    (q : Event → Bool) (n : ℕ) (xs : List Event)
    → All (λ x. q x ≡ false) (take n xs)
    → length (select q xs) ≤ length xs - n
left_out q zero xs h = subst (λ m. length (select q xs) ≤ m) (omega arith) (length-select-le q xs)
left_out q (suc n) [] h = omega arith
left_out q (suc n) (x ∷ xs) h = rw h.0 (omega (arith, left_out q n xs h.1))

select-select :
    (p q : Event → Bool) (xs : List Event) → select q (select p xs) ≡ select (λ x. p x && q x) xs
select-select p q [] = refl
select-select p q (x ∷ xs) =
    let ih = select-select p q xs in
    elim (Bool-cases (p x)) [
      | inl hit ↦ rw hit (ap (λ ys. if q x then x ∷ ys else ys) ih)
      | inr miss ↦ rw miss ih
    ]

and_true : (b : Bool) → (b && true && true) ≡ b
and_true true = refl
and_true false = refl

or_true : (a b : Bool) → b ≡ true → (a || b) ≡ true
or_true true b h = refl
or_true false b h = h

All-among : (es : List Event) → All (λ e. id_among es e ≡ true) es
All-among [] = tt
All-among (x ∷ es) = (
  ground arith,
  All-imp (λ e. id_among es e ≡ true) (λ e. id_among (x ∷ es) e ≡ true) es
      (λ e h. or_true (has_event_id x.id e) (id_among es e) h) (All-among es),
)

select_cong :
    (p q : Event → Bool) (xs : List Event) → ((x : Event) → p x ≡ q x) → select p xs ≡ select q xs
select_cong p q [] same = refl
select_cong p q (x ∷ xs) same =
    rw (same x) (ap (λ ys. if q x then x ∷ ys else ys) (select_cong p q xs same))

-- Of the events that wait, at least those that are claimed do not wait any more.
pub waits_after_claim :
    (n : ℕ) (locked : Event → Bool) (xs : List Event)
    → ((e : Event) → locked e ≡ false)
    → let picked = take n (select (claimable_event none locked) xs) in
      length (select (λ e. waits e && not (id_among picked e)) xs) ≤ length (select waits xs) - n
waits_after_claim n locked xs free =
    let claimable : select (claimable_event none locked) xs ≡ select waits xs =
      select_cong (claimable_event none locked) waits xs (λ e. rw (free e) (and_true (waits e))) in
    let picked = take n (select (claimable_event none locked) xs) in
    subst (λ m. m ≤ length (select waits xs) - n)
      (ap length (select-select waits (λ e. not (id_among picked e)) xs))
      (left_out (λ e. not (id_among picked e)) n (select waits xs)
        (subst (λ ys. All (λ e. not (id_among picked e) ≡ false) (take n ys)) claimable
          (All-imp (λ e. id_among picked e ≡ true) (λ e. not (id_among picked e) ≡ false) picked
            (λ e h. rw h refl) (All-among picked))))
