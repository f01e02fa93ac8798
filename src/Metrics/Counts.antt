-- ===== src/Metrics/Counts.antt =====
-- What the counters count.
use mathlib.Core.List.{append-nil, append_assoc}
use payment_sim.Metrics.{
  MetricKey, same_key, Duration, Registry, map_get, map_set, no_duration, Finished, metric_key,
  on_finish, count_in, group_counts, event_status_text, has_event_status,
}
use payment_sim.Value.{Host}
use payment_sim.Store.Tables.{Db}
use payment_sim.Jobs.{status_text}
use payment_sim.Prelude.{
  ℕ, suc, ◌+◌, String, ◌≡◌, refl, sym, ap, ◌∙◌, inl, inr, Bool, true, false, ◌&&◌, List, [], ◌∷◌,
  ◌++◌, map, arith, ◌==◌, eq_iff, eq_refl, if◌then◌else◌, Bool-cases, length, select,
}

and_parts : (a b : Bool) → (a && b) ≡ true → (a ≡ true) × (b ≡ true)
and_parts true b e = (refl, e)
and_parts false b e = absurd (cc)

equal_keys : (a b : MetricKey) → same_key a b ≡ true → a ≡ b
equal_keys a b e =
    let (first, s) =
      and_parts (a.method == b.method && a.route == b.route) (a.status == b.status) e in
    let (m, r) = and_parts (a.method == b.method) (a.route == b.route) first in
    λ i. record {
      method = (eq_iff a.method b.method).0 m i;
      route = (eq_iff a.route b.route).0 r i;
      status = (eq_iff a.status b.status).0 s i;
    }

same_key_refl : (a : MetricKey) → same_key a a ≡ true
same_key_refl a = rw (eq_refl a.method, eq_refl a.route, eq_refl a.status) refl

if_twice {ℓ} :
    {A : Type ℓ} (c c' : Bool) (a b x : A)
    → c ≡ c'
    → (if c then a else x) ≡ (if c' then a else (if c then b else x))
if_twice true true a b x e = refl
if_twice true false a b x e = absurd (cc)
if_twice false true a b x e = absurd (cc)
if_twice false false a b x e = refl

if_swapped {ℓ} :
    {A : Type ℓ} (c c' : Bool) (a b x y : A)
    → y ≡ (if c' then a else x)
    → (c ≡ true → c' ≡ true → ⊥)
    → (if c then b else y) ≡ (if c' then a else (if c then b else x))
if_swapped true true a b x y e apart = absurd (apart refl refl)
if_swapped true false a b x y e apart = refl
if_swapped false true a b x y e apart = e
if_swapped false false a b x y e apart = e

map_get-map_set {ℓ} :
    {A : Type ℓ} (k key : MetricKey) (d a : A) (m : List (MetricKey × A))
    → map_get k d (map_set key a m) ≡ (if same_key key k then a else map_get k d m)
unfolding map_get map_set
map_get-map_set k key d a [] = refl
map_get-map_set k key d a ((j, b) ∷ rest) =
    let ih = map_get-map_set k key d a rest in
    elim (Bool-cases (same_key j key)) [
      | inl hit ↦ rw hit (
          if_twice (same_key j k) (same_key key k) a b (map_get k d rest)
            (ap (λ x. same_key x k) (equal_keys j key hit)))
      | inr miss ↦ rw miss (
          if_swapped (same_key j k) (same_key key k) a b (map_get k d rest)
            (map_get k d (map_set key a rest)) ih
            (λ at_j at_key.
              let same : j ≡ key = equal_keys j k at_j ∙ sym (equal_keys key k at_key) in
              cc (miss, ap (λ x. same_key x key) same, same_key_refl key)))
    ]

-- the requests with the labels of the key
abbrev pub with_key_labels : Host → MetricKey → List Finished → List Finished
with_key_labels h k fs = select (λ f. same_key (metric_key h f) k) fs

-- the registry after these requests
abbrev pub finish_all : Host → List Finished → Registry → Registry
finish_all h [] reg = reg
finish_all h (f ∷ fs) reg = finish_all h fs (on_finish h f reg)

-- What `set` of a value that depends on the old one leaves under a key.
changed {ℓ} :
    {A : Type ℓ} (k key : MetricKey) (d : A) (change : A → A) (m : List (MetricKey × A))
    → map_get k d (map_set key (change (map_get key d m)) m)
      ≡ (if same_key key k then change (map_get k d m) else map_get k d m)
changed k key d change m =
    map_get-map_set k key d (change (map_get key d m)) m ∙ elim (Bool-cases (same_key key k)) [
      | inl hit ↦ rw hit (ap (λ x. change (map_get x d m)) (equal_keys key k hit))
      | inr miss ↦ rw miss refl
    ]

counted :
    (h : Host) (k : MetricKey) (fs : List Finished) (reg : Registry)
    → map_get k 0 (finish_all h fs reg).requests
      ≡ map_get k 0 reg.requests + length (with_key_labels h k fs)
unfolding on_finish
counted h k [] reg = omega arith
counted h k (f ∷ fs) reg =
    counted h k fs (on_finish h f reg)
    ∙ ap (λ n. n + length (with_key_labels h k fs))
        (changed k (metric_key h f) 0 (λ n. n + 1) reg.requests)
    ∙ elim (Bool-cases (same_key (metric_key h f) k)) [
      | inl hit ↦ rw hit (omega arith)
      | inr miss ↦ rw miss refl
    ]

-- a duration with these requests added
abbrev longer : Duration → List Finished → Duration
longer d fs = record {
  count = d.count + length fs;
  summands = d.summands ++ map (λ f. f.nanoseconds) fs;
}

longer_nil : (d : Duration) → longer d [] ≡ d
longer_nil d =
    let n : d.count + 0 ≡ d.count = omega arith in
    λ i. record { count = n i; summands = append-nil d.summands i }

longer_cons :
    (d : Duration) (f : Finished) (fs : List Finished)
    → longer (longer d (f ∷ [])) fs ≡ longer d (f ∷ fs)
longer_cons d f fs =
    let n : d.count + 1 + length fs ≡ d.count + suc (length fs) = omega arith in
    let same =
      append_assoc d.summands (f.nanoseconds ∷ []) (map (λ (x : Finished). x.nanoseconds) fs) in
    λ i. record { count = n i; summands = same i }

timed :
    (h : Host) (k : MetricKey) (fs : List Finished) (reg : Registry)
    → map_get k no_duration (finish_all h fs reg).durations
      ≡ longer (map_get k no_duration reg.durations) (with_key_labels h k fs)
unfolding on_finish
timed h k [] reg = sym (longer_nil (map_get k no_duration reg.durations))
timed h k (f ∷ fs) reg =
    timed h k fs (on_finish h f reg)
    ∙ ap (λ d. longer d (with_key_labels h k fs))
        (changed k (metric_key h f) no_duration (λ d. longer d (f ∷ [])) reg.durations)
    ∙ elim (Bool-cases (same_key (metric_key h f) k)) [
      | inl hit ↦
          rw hit (longer_cons (map_get k no_duration reg.durations) f (with_key_labels h k fs))
      | inr miss ↦ rw miss refl
    ]

abbrev pub empty_registry : Registry
empty_registry = record { requests = []; durations = [] }

-- After any finished requests, and under any labels, both Maps hold what an independent count
-- says: the number of the requests with these labels, and their durations, in order.
pub metrics_count :
    (h : Host) (k : MetricKey) (fs : List Finished)
    → let reg = finish_all h fs empty_registry in
      let mine = with_key_labels h k fs in
      (map_get k 0 reg.requests ≡ length mine)
      × ((map_get k no_duration reg.durations).count ≡ length mine)
      × ((map_get k no_duration reg.durations).summands ≡ map (λ f. f.nanoseconds) mine)
unfolding map_get
metrics_count h k fs = (
  counted h k fs empty_registry ∙ omega arith,
  ap (λ (d : Duration). d.count) (timed h k fs empty_registry) ∙ omega arith,
  ap (λ (d : Duration). d.summands) (timed h k fs empty_registry),
)

-- the size of a group
abbrev pub group_size : String → List (String × ℕ) → ℕ
group_size t [] = 0
group_size t ((u, n) ∷ rest) = if u == t then n else group_size t rest

here_count :
    (c c' : Bool) (n m : ℕ)
    → c ≡ c'
    → (if c then n + 1 else m) ≡ (if c then n else m) + (if c' then 1 else 0)
here_count true true n m e = refl
here_count true false n m e = absurd (cc)
here_count false true n m e = absurd (cc)
here_count false false n m e = omega arith

there_count :
    (c c' : Bool) (n m m' : ℕ)
    → m' ≡ m + (if c' then 1 else 0)
    → (c ≡ true → c' ≡ true → ⊥)
    → (if c then n else m') ≡ (if c then n else m) + (if c' then 1 else 0)
there_count true true n m m' e apart = absurd (apart refl refl)
there_count true false n m m' e apart = omega arith
there_count false c' n m m' e apart = e

count_in-count :
    (s t : String) (groups : List (String × ℕ))
    → group_size t (count_in s groups) ≡ group_size t groups + (if s == t then 1 else 0)
unfolding count_in
count_in-count s t [] = omega arith
count_in-count s t ((u, n) ∷ rest) =
    let ih = count_in-count s t rest in
    elim (Bool-cases (u == s)) [
      | inl hit ↦ rw hit (
          here_count (u == t) (s == t) n (group_size t rest)
            (ap (λ x. x == t) ((eq_iff u s).0 hit)))
      | inr miss ↦ rw miss (
          there_count (u == t) (s == t) n (group_size t rest) (group_size t (count_in s rest)) ih
            (λ at_u at_s.
              let same : u ≡ s = (eq_iff u t).0 at_u ∙ sym ((eq_iff s t).0 at_s) in
              cc (miss, ap (λ x. x == s) same, eq_refl s)))
    ]

group_counts-count :
    (t : String) (ss : List String) (groups : List (String × ℕ))
    → group_size t (group_counts ss groups) ≡ group_size t groups + length (select (λ s. s == t) ss)
unfolding group_counts
group_counts-count t [] groups = omega arith
group_counts-count t (s ∷ ss) groups =
    let ih = group_counts-count t ss (count_in s groups) in
    let first = count_in-count s t groups in
    elim (Bool-cases (s == t)) [
      | inl hit ↦ rw hit (omega (arith, ih, rw hit at first))
      | inr miss ↦ rw miss (omega (arith, ih, rw miss at first))
    ]

length-select-map {ℓ κ} :
    {A : Type ℓ} {B : Type κ} (p : B → Bool) (f : A → B) (xs : List A)
    → length (select p (map f xs)) ≡ length (select (λ x. p (f x)) xs)
length-select-map p f [] = refl
length-select-map p f (x ∷ xs) =
    let ih = length-select-map p f xs in
    elim (Bool-cases (p (f x))) [ inl hit ↦ rw hit (ap suc ih) | inr miss ↦ rw miss ih ]

-- The group of a status that `/metrics` shows for transactions has as many as the table has rows
-- of that status, for every status text; and so for the events of the outbox.
pub status_counts :
    (t : String) (db : Db)
    → (group_size t (group_counts (map (λ r. status_text r.status) db.transactions) [])
        ≡ length (select (λ r. status_text r.status == t) db.transactions))
      × (group_size t (group_counts (map (λ e. event_status_text e.status) db.outbox_events) [])
          ≡ length (select (has_event_status t) db.outbox_events))
status_counts t db = (
  group_counts-count t (map (λ r. status_text r.status) db.transactions) []
      ∙ ap (λ n. 0 + n)
          (length-select-map (λ s. s == t) (λ r. status_text r.status) db.transactions)
      ∙ omega arith,
  group_counts-count t (map (λ e. event_status_text e.status) db.outbox_events) []
      ∙ ap (λ n. 0 + n)
          (length-select-map (λ s. s == t) (λ e. event_status_text e.status) db.outbox_events)
      ∙ omega arith,
)
