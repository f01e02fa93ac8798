-- ===== src/RateLimiter/Window.antt =====
-- How many requests of one client the limiter lets through while a counter lives.
use payment_sim.RateLimiter.{Counter, increment, limit_response, Counters, rate_limit}
use payment_sim.Prelude.{
  ℕ, suc, ◌+◌, ◌-◌, ◌≤◌, ◌<◌, String, ◌≡◌, refl, sym, ap, ◌∙◌, subst, inl, inr, Bool, true, false,
  ◌&&◌, none, some, List, [], ◌∷◌, arith, ◌==◌, eq_iff, eq_refl, ltb, leb, if◌then◌else◌, leb→le,
  Bool-cases, All,
}

-- How many of the requests, each an address and a time, are let through for the address `ip`.
pub let_through_count : ℕ → ℕ → String → List (String × ℕ) → Counters → ℕ
let_through_count window_ms max_requests ip [] counters = 0
let_through_count window_ms max_requests ip ((address, t) ∷ requests) counters =
    let (answer, counters') = rate_limit window_ms max_requests address t counters in
    let rest = let_through_count window_ms max_requests ip requests counters' in
    if address == ip && answer.let_through then suc rest else rest

-- the counter that a request leaves, and the answer to it
own_counter :
    (window_ms max_requests : ℕ) (ip : String) (t : ℕ) (counters : Counters)
    → ((rate_limit window_ms max_requests ip t counters).1 ip
        ≡ some (increment window_ms t (counters ip)))
      × ((rate_limit window_ms max_requests ip t counters).0.let_through
          ≡ leb (increment window_ms t (counters ip)).count max_requests)
unfolding rate_limit limit_response
own_counter window_ms max_requests ip t counters = (rw (eq_refl ip), refl)

-- A request of one address leaves the counters of all others as they are.
other_addresses :
    (window_ms max_requests : ℕ) (ip address : String) (now : ℕ) (counters : Counters)
    → (address == ip) ≡ false
    → (rate_limit window_ms max_requests address now counters).1 ip ≡ counters ip
unfolding rate_limit
other_addresses window_ms max_requests ip address now counters n =
    ground (arith, eq_iff address ip, eq_iff ip address)

next_count :
    (mine through : Bool) (n budget : ℕ)
    → (mine ≡ true → through ≡ true → suc n ≤ budget)
    → n ≤ budget
    → (if mine && through then suc n else n) ≤ budget
next_count true true n budget counted rest = counted refl refl
next_count true false n budget counted rest = rest
next_count false through n budget counted rest = rest

-- The requests of `ip` come before the time `end`.
abbrev pub Before : String → ℕ → List (String × ℕ) → Type 0
Before ip end = All (λ r. (r.0 == ip) ≡ true → r.1 < end)

live-count :
    (window_ms max_requests : ℕ) (ip : String) (requests : List (String × ℕ)) (counters : Counters)
    (c : Counter)
    → counters ip ≡ some c
    → Before ip c.expires_at requests
    → let_through_count window_ms max_requests ip requests counters ≤ max_requests - c.count
unfolding let_through_count
live-count window_ms max_requests ip [] counters c e live = omega arith
live-count window_ms max_requests ip ((address, t) ∷ requests) counters c e live =
    elim (Bool-cases (address == ip)) [
      | inr differs ↦ rw differs (
          live-count window_ms max_requests ip requests
            (rate_limit window_ms max_requests address t counters).1 c
            (other_addresses window_ms max_requests ip address t counters differs ∙ e) live.1)
      | inl mine ↦
          let same : address ≡ ip = (eq_iff address ip).0 mine in
          let now_live : ltb t c.expires_at ≡ true = ground (arith, live.0 mine) in
          let c' : Counter = record c { count = c.count + 1 } in
          let next : increment window_ms t (counters address) ≡ c' =
            unfold increment in rw (same, e, now_live) in
          let (own, through) = own_counter window_ms max_requests address t counters in
          let rest =
            live-count window_ms max_requests ip requests
              (rate_limit window_ms max_requests address t counters).1 c'
              (subst (λ a. (rate_limit window_ms max_requests address t counters).1 a ≡ some c')
                same (own ∙ ap some next))
              live.1 in
          let decided = through ∙ ap (λ (x : Counter). leb x.count max_requests) next in
          next_count (address == ip)
            (rate_limit window_ms max_requests address t counters).0.let_through
            (let_through_count window_ms max_requests ip requests
              (rate_limit window_ms max_requests address t counters).1)
            (max_requests - c.count)
            (λ _ b. omega (arith, rest, leb→le (c.count + 1) max_requests (sym decided ∙ b)))
            (omega (arith, rest))
    ]

-- From its first request on, an address that has no counter gets at most `max_requests` requests
-- through before that counter lapses, whatever requests of other addresses come between.
pub window_bound :
    (window_ms max_requests : ℕ) (ip : String) (first : ℕ) (requests : List (String × ℕ))
    (counters : Counters)
    → counters ip ≡ none
    → Before ip (first + window_ms) requests
    → let_through_count window_ms max_requests ip ((ip, first) ∷ requests) counters ≤ max_requests
unfolding let_through_count
window_bound window_ms max_requests ip first requests counters e live =
    let c : Counter = record { count = 1; expires_at = first + window_ms } in
    let next : increment window_ms first (counters ip) ≡ c = unfold increment in rw e in
    let (own, through) = own_counter window_ms max_requests ip first counters in
    let rest =
      live-count window_ms max_requests ip requests
        (rate_limit window_ms max_requests ip first counters).1 c (own ∙ ap some next) live in
    let decided = through ∙ ap (λ (x : Counter). leb x.count max_requests) next in
    next_count (ip == ip) (rate_limit window_ms max_requests ip first counters).0.let_through
      (let_through_count window_ms max_requests ip requests
        (rate_limit window_ms max_requests ip first counters).1)
      max_requests (λ _ b. omega (arith, rest, leb→le 1 max_requests (sym decided ∙ b)))
      (omega (arith, rest))
