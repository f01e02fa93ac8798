-- ===== src/Outbox/Claims.antt =====
-- Which events a publisher claims.
use payment_sim.Outbox.{
  recovered_event, claimable_event, pick_events, id_among, claimed_event, claim_outbox_events,
  EventStatus, is_pending,
}
use payment_sim.Store.Tables.{pending, outbox_failed, Event, Db, update_where}
use payment_sim.Prelude.{
  ℕ, zero, suc, ◌+◌, ◌≤◌, ◌<◌, String, ◌≡◌, refl, subst, ◌↔◌, inl, inr, Bool, true, false, Option,
  List, [], ◌∷◌, arith, leb, Bool-cases, length, take, select, All, length-take-le,
}
use payment_sim.Outbox.Rounds.{All-pure}

pub All-select {ℓ} :
    {A : Type ℓ} (P : A → Type 0) (p : A → Bool) (xs : List A)
    → All (λ x. p x ≡ true → P x) xs
    → All P (select p xs)
All-select P p [] h = tt
All-select P p (x ∷ xs) h =
    let rest = All-select P p xs h.1 in
    elim (Bool-cases (p x)) [ inl hit ↦ rw hit (h.0 hit, rest) | inr miss ↦ rw miss rest ]

pub All-take {ℓ} :
    {A : Type ℓ} (P : A → Type 0) (n : ℕ) (xs : List A) → All P xs → All P (take n xs)
All-take P zero xs h = tt
All-take P (suc n) [] h = tt
All-take P (suc n) (x ∷ xs) h = (h.0, All-take P n xs h.1)

busy_after_claim :
    (picked : List Event) (processor : String) (now : ℕ) (ids : Option (List String))
    (locked : Event → Bool) (es : List Event)
    → All
        (λ e. claimable_event ids locked e ≡ true → id_among picked e ≡ false)
        (update_where (id_among picked) (claimed_event processor now) es)
unfolding update_where
busy_after_claim picked processor now ids locked [] = tt
busy_after_claim picked processor now ids locked (e ∷ es) =
    let rest = busy_after_claim picked processor now ids locked es in
    elim (Bool-cases (id_among picked e)) [
      | inl hit ↦ rw hit (unfold claimed_event in (λ t. cc), rest)
      | inr miss ↦ rw miss (λ _. miss, rest)
    ]

pending_of_test : (t : EventStatus) → is_pending t ≡ true → t ≡ pending
pending_of_test pending e = refl
pending_of_test EventStatus.processing e = cc
pending_of_test EventStatus.sent e = cc
pending_of_test outbox_failed e = cc

free :
    (ids : Option (List String)) (locked : Event → Bool) (e : Event)
    → claimable_event ids locked e ≡ true
    → (e.status ≡ pending) × (locked e ≡ false)
free ids locked e t = (pending_of_test e.status (ground arith), ground arith)

-- Of two claims, one right after the other, the second picks no event that the first one took,
-- whatever its limit, the transactions it looks for and the rows it sees locked. A claim takes at
-- most its limit, and only PENDING events that no other connection has locked.
pub claims_disjoint :
    (limit : ℕ) (processor : String) (ids : Option (List String)) (locked : Event → Bool) (now : ℕ)
    (limit' : ℕ) (ids' : Option (List String)) (locked' : Event → Bool) (db : Db)
    → let (claimed, db') = claim_outbox_events limit processor ids locked now db in
      All (λ e. id_among claimed e ≡ false) (pick_events limit' ids' locked' db')
      × (length claimed ≤ limit)
      × All (λ e. (e.status ≡ pending) × (locked e ≡ false)) claimed
unfolding claim_outbox_events pick_events
claims_disjoint limit processor ids locked now limit' ids' locked' db =
    let picked = take limit (select (claimable_event ids locked) db.outbox_events) in
    (
      All-take _ limit' _ (
          All-select _ (claimable_event ids' locked') _
            (busy_after_claim picked processor now ids' locked' db.outbox_events)),
      length-take-le limit _,
      All-take _ limit _ (
          All-select _ (claimable_event ids locked) db.outbox_events
            (All-pure _ db.outbox_events (free ids locked))),
    )

-- One round in which a publisher claims an event at one time, stops, and the event is recovered at
-- a later time.
abbrev pub Round : Type 0
Round = (String × ℕ) × ℕ

-- an event after such rounds
pub abandoned : ℕ → List Round → Event → Event
abandoned max_recoveries [] e = e
abandoned max_recoveries (((processor, t), later) ∷ rounds) e =
    abandoned max_recoveries rounds
      (recovered_event max_recoveries later (claimed_event processor t e))

recovered-status :
    (max_recoveries : ℕ) (r : Round) (e : Event)
    → let e' = recovered_event max_recoveries r.1 (claimed_event r.0.0 r.0.1 e) in
      ((e'.status ≡ outbox_failed) ↔ (max_recoveries ≤ e.recovery_count + 1))
      × ((e'.status ≡ pending) ↔ (e.recovery_count + 1 < max_recoveries))
      × (e'.recovery_count ≡ e.recovery_count + 1)
unfolding recovered_event claimed_event
recovered-status max_recoveries r e =
    elim (Bool-cases (leb max_recoveries (e.recovery_count + 1))) [
      | inl last ↦ rw last ((λ _. ground arith, λ _. refl), (λ x. cc, λ x. ground arith), refl)
      | inr more ↦ rw more ((λ x. cc, λ x. ground arith), (λ _. ground arith, λ _. refl), refl)
    ]

-- An event whose publishers all stop after they claimed it is given up exactly when its recoveries
-- have reached the limit, and is pending until then.
pub gives_up :
    (max_recoveries : ℕ) (claim : String × ℕ) (later : ℕ) (rounds : List Round) (e : Event)
    → let e' = abandoned max_recoveries ((claim, later) ∷ rounds) e in
      let count = e.recovery_count + length ((claim, later) ∷ rounds) in
      ((e'.status ≡ outbox_failed) ↔ (max_recoveries ≤ count))
      × ((e'.status ≡ pending) ↔ (count < max_recoveries))
unfolding abandoned
gives_up max_recoveries claim later [] e =
    let (given_up, waits, _) = recovered-status max_recoveries (claim, later) e in (given_up, waits)
gives_up max_recoveries claim later ((next, end) ∷ rounds) e =
    let (_, _, counted) = recovered-status max_recoveries (claim, later) e in
    let e' = recovered_event max_recoveries later (claimed_event claim.0 claim.1 e) in
    let last = abandoned max_recoveries ((next, end) ∷ rounds) e' in
    let more = length ((next, end) ∷ rounds) in
    let same : e'.recovery_count + more ≡ e.recovery_count + suc more = omega (arith, counted) in
    subst
      (λ count.
        ((last.status ≡ outbox_failed) ↔ (max_recoveries ≤ count))
        × ((last.status ≡ pending) ↔ (count < max_recoveries)))
      same (gives_up max_recoveries next end rounds e')
