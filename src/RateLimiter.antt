-- ===== src/RateLimiter.antt =====
-- middleware/rateLimiter.js: the limiter of production, over the counters that Redis keeps
pub mod Window
use payment_sim.Auth.{Env, or_text, client}
use payment_sim.Config.{number_or}
use payment_sim.Sensitive.{env_text, is_production}
use payment_sim.Store.Sql.{Fault, no_fault, not_run}
use payment_sim.Value.{Host}
use payment_sim.Value.Numbers.{Num, of_ℕ}
use payment_sim.Prelude.{
  ℕ, ◌+◌, ◌-◌, ◌/◌, String, Bool, true, Option, none, some, ◌==◌, ltb, leb, if◌then◌else◌, Result,
  ok, ◌>>=◌,
}

-- A counter and the time at which it lapses.
pub record Counter : Type 0 where
  pub count : ℕ
  pub expires_at : ℕ

-- `INCR` and `PEXPIRE` of the script, which Redis runs as one step: a counter that has lapsed is gone.
unfoldable pub increment : ℕ → ℕ → Option Counter → Counter
increment window_ms now none = record { count = 1; expires_at = now + window_ms }
increment window_ms now (some c) =
    if ltb now c.expires_at
    then record c { count = c.count + 1 }
    else record { count = 1; expires_at = now + window_ms }

pub record Limited : Type 0 where
  pub limit : ℕ
  pub remaining : ℕ
  pub reset_seconds : ℕ
  pub let_through : Bool

-- the headers and the decision; `-` stops at 0, as `Math.max(0, ...)` does
unfoldable pub limit_response : ℕ → ℕ → Counter → Limited
limit_response max_requests now c = record {
  limit = max_requests;
  remaining = max_requests - c.count;
  reset_seconds = (c.expires_at - now + 999) / 1000;
  let_through = leb c.count max_requests;
}

-- the counters by client address
abbrev pub Counters : Type 0
Counters = String → Option Counter

unfoldable pub rate_limit : ℕ → ℕ → String → ℕ → Counters → Limited × Counters
unfolding increment limit_response
rate_limit window_ms max_requests ip now counters =
    let c = increment window_ms now (counters ip) in
    (limit_response max_requests now c, λ other. if other == ip then some c else counters other)

abbrev pub default_window_ms : ℕ
default_window_ms = 60000

abbrev pub default_max_requests : ℕ
default_max_requests = 20

-- What a request meets: it is let through, or answered 429, or 503 if Redis fails.
pub data Protection : Type 0 where
  through : Limited → Protection
  too_many : Limited → Protection
  unavailable : Protection

abbrev pub protection : Fault → Limited → Protection
protection no_fault l = if l.let_through then through l else too_many l
protection _ l = unavailable

-- whether the script ran
abbrev pub counted_by : Fault → Counters → Counters → Counters
counted_by not_run old new = old
counted_by _ old new = new

-- `createRedisRateLimiter`, with what happens to the call of Redis
unfoldable pub redis_rate_limiter : ℕ → ℕ → String → Fault → ℕ → Counters → Protection × Counters
unfolding rate_limit
redis_rate_limiter window_ms max_requests ip fault now counters =
    let (l, counters') = rate_limit window_ms max_requests ip now counters in
    (protection fault l, counted_by fault counters counters')

-- `pingRateLimiter`, with what Redis answers to PING
abbrev pub ping_rate_limiter : Env → Result String → Result Bool
ping_rate_limiter env pong = if is_production env then (do s ← pong; ok (s == "PONG")) else ok true

-- where `createRedisClient` connects; jobs/transactionQueue.js builds the same address
pub data RedisTarget : Type 0 where
  url : String → RedisTarget
  address : (host : String) → (port : Num) → (password : Option String) → RedisTarget

abbrev pub redis_address : Host → RedisTarget
redis_address h =
    address (or_text (env_text h.env "REDIS_HOST") "127.0.0.1")
      (number_or h "REDIS_PORT" (of_ℕ 6379)) (env_text h.env "REDIS_PASSWORD")

abbrev pub create_redis_client : Host → RedisTarget
create_redis_client h = elim (env_text h.env "REDIS_URL") [
  | some target ↦ url target
  | none ↦ redis_address h
]
