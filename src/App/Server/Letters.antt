-- ===== src/App/Server/Letters.antt =====
-- Which dead letters the route shows.
use payment_sim.App.Server.{insert_latest, sort_latest, get_dead_letter_jobs}
use payment_sim.Store.Tables.{DeadLetter, Db}
use payment_sim.Prelude.{
  ℕ, zero, suc, ◌+◌, ◌≤◌, ◌≡◌, refl, ap, ◌∙◌, ◌⊎◌, inl, inr, Bool, List, [], ◌∷◌, arith, leb,
  leb→le, Bool-cases, length, take, select, All, All-imp, length-take-le, ok,
}

abbrev pub AtLeast : DeadLetter → DeadLetter → Type 0
AtLeast d x = x.failed_at ≤ d.failed_at

-- latest first
abbrev pub LatestFirst : List DeadLetter → Type 0
LatestFirst [] = Unit
LatestFirst (d ∷ ds) = All (AtLeast d) ds × LatestFirst ds

-- how often a letter with this property is in the list
abbrev pub count : (DeadLetter → Bool) → List DeadLetter → ℕ
count p ds = length (select p ds)

insert_latest-All :
    (P : DeadLetter → Type 0) (d : DeadLetter) (xs : List DeadLetter)
    → P d
    → All P xs
    → All P (insert_latest d xs)
unfolding insert_latest
insert_latest-All P d [] pd h = (pd, tt)
insert_latest-All P d (x ∷ xs) pd h = elim (Bool-cases (leb x.failed_at d.failed_at)) [
  | inl first ↦ rw first (pd, h)
  | inr later ↦ rw later (h.0, insert_latest-All P d xs pd h.1)
]

insert_latest-LatestFirst :
    (d : DeadLetter) (xs : List DeadLetter) → LatestFirst xs → LatestFirst (insert_latest d xs)
unfolding insert_latest
insert_latest-LatestFirst d [] h = (tt, tt)
insert_latest-LatestFirst d (x ∷ xs) h = elim (Bool-cases (leb x.failed_at d.failed_at)) [
  | inl first ↦
      let le : x.failed_at ≤ d.failed_at = leb→le x.failed_at d.failed_at first in
      rw first
        ((le, All-imp (AtLeast x) (AtLeast d) xs (λ y below. omega (arith, le, below)) h.0), h)
  | inr later ↦
      let le : d.failed_at ≤ x.failed_at = ground arith in
      rw later (insert_latest-All (AtLeast x) d xs le h.0, insert_latest-LatestFirst d xs h.1)
]

sort_latest-LatestFirst : (ds : List DeadLetter) → LatestFirst (sort_latest ds)
unfolding sort_latest
sort_latest-LatestFirst [] = tt
sort_latest-LatestFirst (d ∷ ds) =
    insert_latest-LatestFirst d (sort_latest ds) (sort_latest-LatestFirst ds)

count-insert_latest :
    (p : DeadLetter → Bool) (d : DeadLetter) (xs : List DeadLetter)
    → count p (insert_latest d xs) ≡ count p (d ∷ xs)
unfolding insert_latest
count-insert_latest p d [] = refl
count-insert_latest p d (x ∷ xs) =
    let ih = count-insert_latest p d xs in
    elim (Bool-cases (leb x.failed_at d.failed_at)) [
      | inl first ↦ rw first refl
      | inr later ↦ rw later (elim (Bool-cases (p x)) [
        | inl hit ↦ elim (Bool-cases (p d)) [
          | inl hit_d ↦ rw (hit, hit_d) (ap suc (rw hit_d at ih))
          | inr miss_d ↦ rw (hit, miss_d) (ap suc (rw miss_d at ih))
        ]
        | inr miss ↦ rw miss ih
      ])
    ]

count-sort_latest :
    (p : DeadLetter → Bool) (ds : List DeadLetter) → count p (sort_latest ds) ≡ count p ds
unfolding sort_latest
count-sort_latest p [] = refl
count-sort_latest p (d ∷ ds) =
    let ih = count-sort_latest p ds in
    count-insert_latest p d (sort_latest ds)
    ∙ elim (Bool-cases (p d)) [ inl hit ↦ rw hit (ap suc ih) | inr miss ↦ rw miss ih ]

abbrev drop : ℕ → List DeadLetter → List DeadLetter
drop zero xs = xs
drop (suc n) [] = []
drop (suc n) (x ∷ xs) = drop n xs

count-take :
    (p : DeadLetter → Bool) (n : ℕ) (xs : List DeadLetter)
    → count p (take n xs) + count p (drop n xs) ≡ count p xs
count-take p zero xs = omega arith
count-take p (suc n) [] = refl
count-take p (suc n) (x ∷ xs) =
    let ih = count-take p n xs in
    elim (Bool-cases (p x)) [ inl hit ↦ rw hit (omega (arith, ih)) | inr miss ↦ rw miss ih ]

All-take_drop :
    (P : DeadLetter → Type 0) (n : ℕ) (xs : List DeadLetter)
    → All P xs
    → All P (take n xs) × All P (drop n xs)
All-take_drop P zero xs h = (tt, h)
All-take_drop P (suc n) [] h = (tt, tt)
All-take_drop P (suc n) (x ∷ xs) h =
    let (front, back) = All-take_drop P n xs h.1 in ((h.0, front), back)

take-LatestFirst :
    (n : ℕ) (xs : List DeadLetter)
    → LatestFirst xs
    → LatestFirst (take n xs) × All (λ d. All (AtLeast d) (drop n xs)) (take n xs)
take-LatestFirst zero xs h = (tt, tt)
take-LatestFirst (suc n) [] h = (tt, tt)
take-LatestFirst (suc n) (x ∷ xs) h =
    let (front, back) = All-take_drop (AtLeast x) n xs h.0 in
    let (sorted, above) = take-LatestFirst n xs h.1 in ((front, sorted), (back, above))

full_or_all : (n : ℕ) (xs : List DeadLetter) → (length (take n xs) ≡ n) ⊎ (drop n xs ≡ [])
full_or_all zero xs = inl refl
full_or_all (suc n) [] = inr refl
full_or_all (suc n) (x ∷ xs) = elim (full_or_all n xs) [
  | inl full ↦ inl (ap suc full)
  | inr none_left ↦ inr none_left
]

-- `/dead-letter` shows the latest 100 dead letters, latest first: the table splits into those that
-- are shown and a rest, none of which failed later than one that is shown; and if there is a rest,
-- 100 are shown. Nothing changes.
pub get_dead_letter_jobs_latest :
    (p : DeadLetter → Bool) (db : Db)
    → (jobs rest : List DeadLetter) × (get_dead_letter_jobs db ≡ ok (jobs, db))
      × LatestFirst jobs
      × (count p jobs + count p rest ≡ count p db.dead_letter_jobs)
      × All (λ d. All (AtLeast d) rest) jobs
      × (length jobs ≤ 100)
      × ((length jobs ≡ 100) ⊎ (rest ≡ []))
unfolding get_dead_letter_jobs
get_dead_letter_jobs_latest p db =
    let sorted = sort_latest db.dead_letter_jobs in
    let (first, above) =
      take-LatestFirst 100 sorted (sort_latest-LatestFirst db.dead_letter_jobs) in
    (
      take 100 sorted,
      drop 100 sorted,
      refl,
      first,
      count-take p 100 sorted ∙ count-sort_latest p db.dead_letter_jobs,
      above,
      length-take-le 100 sorted,
      full_or_all 100 sorted,
    )
