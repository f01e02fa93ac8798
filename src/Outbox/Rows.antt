-- ===== src/Outbox/Rows.antt =====
-- The rows of the outbox after a round in which nothing fails.
use payment_sim.Outbox.Claims.{All-select, All-take}
use payment_sim.Outbox.{
  claimable_event, in_process, has_event_id, id_among, claimed_event, sent_event, take, none,
}
use payment_sim.Outbox.Taken.{waits}
use payment_sim.Store.Tables.{sent, Event}
use payment_sim.Prelude.{
  ℕ, ◌≤◌, String, ◌≡◌, refl, sym, ap, ◌∙◌, subst, ◌⊎◌, inl, inr, Bool, true, false, not, ◌&&◌, List,
  [], ◌∷◌, map, arith, if◌then◌else◌, Bool-cases, length, select, All, All-imp,
}

-- nothing is locked
abbrev pub none_locked : Event → Bool
none_locked e = false

-- one row after the loop over the events
abbrev pub sent_row : ℕ → List Event → Event → Event
sent_row now [] x = x
sent_row now (e ∷ es) x = sent_row now es (if has_event_id e.id x then sent_event now x else x)

-- one row after a round that claims `picked`
abbrev pub round_row : String → ℕ → List Event → Event → Event
round_row processor now picked x =
    sent_row now picked (if id_among picked x then claimed_event processor now x else x)

sent_row-sent :
    (now : ℕ) (es : List Event) (x : Event)
    → (x.status ≡ sent) ⊎ (id_among es x ≡ true)
    → (sent_row now es x).status ≡ sent
unfolding sent_event
sent_row-sent now [] x (inl h) = h
sent_row-sent now [] x (inr h) = absurd (cc)
sent_row-sent now (e ∷ es) x h =
    let goal = λ (b : Bool). (sent_row now es (if b then sent_event now x else x)).status ≡ sent in
    elim (Bool-cases (has_event_id e.id x)) [
      | inl hit ↦ subst goal (sym hit) (sent_row-sent now es (sent_event now x) (inl refl))
      | inr miss ↦
          subst goal (sym miss)
            (sent_row-sent now es x (elim h [ inl p ↦ inl p | inr p ↦ inr (rw miss at p) ]))
    ]

sent_row-same :
    (now : ℕ) (es : List Event) (x : Event) → id_among es x ≡ false → sent_row now es x ≡ x
sent_row-same now [] x h = refl
sent_row-same now (e ∷ es) x h =
    let goal = λ (b : Bool). sent_row now es (if b then sent_event now x else x) ≡ x in
    elim (Bool-cases (has_event_id e.id x)) [
      | inl hit ↦ absurd (cc (rw hit at h))
      | inr miss ↦ subst goal (sym miss) (sent_row-same now es x (rw miss at h))
    ]

-- A row that is picked is sent; another stays.
round_row-cases :
    (processor : String) (now : ℕ) (picked : List Event) (x : Event)
    → (id_among picked x ≡ true) × ((round_row processor now picked x).status ≡ sent)
      ⊎ (id_among picked x ≡ false) × (round_row processor now picked x ≡ x)
unfolding claimed_event
round_row-cases processor now picked x = elim (Bool-cases (id_among picked x)) [
  | inl hit ↦
      inl (
        hit,
        rw (hit, sent_row) (sent_row-sent now picked (claimed_event processor now x) (inr hit)),
      )
  | inr miss ↦ inr (miss, rw miss (sent_row-same now picked x miss))
]

-- A row that waited is as it was or SENT, for the same transaction; any other is as it was.
abbrev pub SentIfWaiting : Event → Event → Type 0
SentIfWaiting x y =
    (y ≡ x) ⊎ (waits x ≡ true) × (y.status ≡ sent) × (y.id ≡ x.id) × (y.txn_id ≡ x.txn_id)

abbrev pub SentOrSame : List Event → List Event → Type 0
SentOrSame [] [] = Unit
SentOrSame (x ∷ xs) (y ∷ ys) = SentIfWaiting x y × SentOrSame xs ys
SentOrSame xs ys = ⊥

pub SentOrSame-refl : (xs : List Event) → SentOrSame xs xs
SentOrSame-refl [] = tt
SentOrSame-refl (x ∷ xs) = (inl refl, SentOrSame-refl xs)

SentIfWaiting-trans : (x y z : Event) → SentIfWaiting x y → SentIfWaiting y z → SentIfWaiting x z
SentIfWaiting-trans x y z (inl p) q = subst (λ e. SentIfWaiting e z) p q
SentIfWaiting-trans x y z (inr a) (inl q) = subst (SentIfWaiting x) (sym q) (inr a)
SentIfWaiting-trans x y z (inr (_, done, _, _)) (inr (waiting, _, _, _)) =
    absurd (cc (rw done at waiting))

pub SentOrSame-trans :
    (xs ys zs : List Event) → SentOrSame xs ys → SentOrSame ys zs → SentOrSame xs zs
SentOrSame-trans [] [] [] p q = tt
SentOrSame-trans [] [] (z ∷ zs) p q = q
SentOrSame-trans [] (y ∷ ys) zs p q = absurd p
SentOrSame-trans (x ∷ xs) [] zs p q = absurd p
SentOrSame-trans (x ∷ xs) (y ∷ ys) [] p q = q
SentOrSame-trans (x ∷ xs) (y ∷ ys) (z ∷ zs) p q =
    (SentIfWaiting-trans x y z p.0 q.0, SentOrSame-trans xs ys zs p.1 q.1)

-- No two rows have one id.
abbrev pub UniqueIds : List Event → Type 0
UniqueIds es = All (λ x. All (λ y. y.id ≡ x.id → y ≡ x) es) es

among-All :
    (Q : Event → Type 0) (ps : List Event) (x : Event)
    → All Q ps
    → id_among ps x ≡ true
    → (p : Event) × Q p × (p.id ≡ x.id)
among-All Q [] x all hit = cc
among-All Q (p ∷ ps) x all hit = elim (Bool-cases (has_event_id p.id x)) [
  | inl same ↦ (p, all.0, ground arith)
  | inr differs ↦ among-All Q ps x all.1 (rw differs at hit)
]

All-mapped :
    (P Q : Event → Type 0) (f : Event → Event) (xs : List Event)
    → ((x : Event) → P x → Q (f x))
    → All P xs
    → All Q (map f xs)
All-mapped P Q f [] g h = tt
All-mapped P Q f (x ∷ xs) g h = (g x h.0, All-mapped P Q f xs g h.1)

sent_row-ids :
    (now : ℕ) (es : List Event) (x : Event)
    → ((sent_row now es x).id ≡ x.id) × ((sent_row now es x).txn_id ≡ x.txn_id)
unfolding sent_event
sent_row-ids now [] x = (refl, refl)
sent_row-ids now (e ∷ es) x =
    let goal = λ (b : Bool).
      ((sent_row now es (if b then sent_event now x else x)).id ≡ x.id)
      × ((sent_row now es (if b then sent_event now x else x)).txn_id ≡ x.txn_id) in
    elim (Bool-cases (has_event_id e.id x)) [
      | inl hit ↦ subst goal (sym hit) (sent_row-ids now es (sent_event now x))
      | inr miss ↦ subst goal (sym miss) (sent_row-ids now es x)
    ]

round_row-ids :
    (processor : String) (now : ℕ) (picked : List Event) (x : Event)
    → let y = round_row processor now picked x in (y.id ≡ x.id) × (y.txn_id ≡ x.txn_id)
unfolding claimed_event
round_row-ids processor now picked x = elim (Bool-cases (id_among picked x)) [
  | inl hit ↦ rw (hit, sent_row) (sent_row-ids now picked (claimed_event processor now x))
  | inr miss ↦ rw (miss, sent_row) (sent_row-ids now picked x)
]

pub rows-UniqueIds :
    (processor : String) (now : ℕ) (picked es : List Event)
    → UniqueIds es
    → UniqueIds (map (round_row processor now picked) es)
rows-UniqueIds processor now picked es unique =
    let f = round_row processor now picked in
    let ids = λ (e : Event). (round_row-ids processor now picked e).0 in
    All-mapped _ _ f es
      (λ x all. All-mapped _ _ f es (λ y same e. ap f (same (sym (ids y) ∙ e ∙ ids x))) all) unique

-- With unique ids, only rows that wait are picked.
pub picked_waits :
    (n : ℕ) (es : List Event)
    → UniqueIds es
    → All
        (λ x.
          id_among (take n (select (claimable_event none none_locked) es)) x ≡ true
          → waits x ≡ true)
        es
picked_waits n es unique =
    All-imp (λ x. All (λ y. y.id ≡ x.id → y ≡ x) es) _ es
      (λ x all hit.
        let (p, (same, t), e) =
          among-All (λ p. (p.id ≡ x.id → p ≡ x) × (waits p ≡ true)) _ x
            (All-take _ n _ (
              All-select _ (claimable_event none none_locked) es
                (All-imp (λ y. y.id ≡ x.id → y ≡ x) _ es (λ y q c. (q, ground arith)) all)))
            hit in
        subst (λ y. waits y ≡ true) (same e) t)
      unique

length-if-le :
    (b c : Bool) (y x : Event) (ys xs : List Event)
    → (b ≡ true → c ≡ true)
    → length ys ≤ length xs
    → length (if b then y ∷ ys else ys) ≤ length (if c then x ∷ xs else xs)
length-if-le true true y x ys xs h l = omega (arith, l)
length-if-le true false y x ys xs h l = absurd (cc (h refl))
length-if-le false true y x ys xs h l = omega (arith, l)
length-if-le false false y x ys xs h l = l

module _ (processor : String) (now : ℕ) (picked : List Event) where
  pub rows-SentOrSame :
      (xs : List Event)
      → All (λ x. id_among picked x ≡ true → waits x ≡ true) xs
      → SentOrSame xs (map (round_row processor now picked) xs)
  rows-SentOrSame [] h = tt
  rows-SentOrSame (x ∷ xs) h = (
    elim (round_row-cases processor now picked x) [
      | inl (hit, done) ↦
          let (id, txn) = round_row-ids processor now picked x in inr (h.0 hit, done, id, txn)
      | inr (_, same) ↦ inl same
    ],
    rows-SentOrSame xs h.1,
  )

  pub rows-idle :
      (xs : List Event)
      → All (λ e. in_process e.status ≡ false) xs
      → All (λ e. in_process e.status ≡ false) (map (round_row processor now picked) xs)
  rows-idle [] h = tt
  rows-idle (x ∷ xs) h = (
    elim (round_row-cases processor now picked x) [
      | inl (_, done) ↦ rw done refl
      | inr (_, same) ↦ rw same h.0
    ],
    rows-idle xs h.1,
  )

  -- A row that still waits did so before, and was not picked.
  pub rows_waiting :
      (xs : List Event)
      → length (select waits (map (round_row processor now picked) xs))
        ≤ length (select (λ e. waits e && not (id_among picked e)) xs)
  rows_waiting [] = omega arith
  rows_waiting (x ∷ xs) =
      length-if-le (waits (round_row processor now picked x)) (waits x && not (id_among picked x))
        (round_row processor now picked x) x _ _ (still x) (rows_waiting xs)
    where
      still :
          (x : Event)
          → waits (round_row processor now picked x) ≡ true
          → (waits x && not (id_among picked x)) ≡ true
      still x e = elim (round_row-cases processor now picked x) [
        | inl (hit, done) ↦ absurd (cc (rw done at e))
        | inr (miss, same) ↦ rw (rw same at e, miss) refl
      ]
