-- ===== src/App/Server.antt =====
-- app.js as a whole: the middleware in order, then the routes, over the tables, the counters of the
-- rate limiter and the registry of metrics. The packages answer what their documentation says: an
-- error that reaches Express is answered with its status, or 500.
pub mod Guards
pub mod Letters
use payment_sim.App.{
  Response, Request, pay, StatusAnswer, unauthorized, not_found, forbidden, shown, get_status,
}
use payment_sim.Auth.{
  Auth, client, api_key_auth, admin_api_key_auth, api_key_or_admin_auth, is_origin_allowed,
}
use payment_sim.Config.{Config}
use payment_sim.RateLimiter.{
  Counters, through, too_many, unavailable, redis_rate_limiter, ping_rate_limiter,
}
use payment_sim.Metrics.{Registry, Finished, on_finish}
use payment_sim.Sensitive.{is_production}
use payment_sim.Store.Tables.{DeadLetter, Db}
use payment_sim.Store.Sql.{Fault, Session, autocommit}
use payment_sim.Value.{Host}
use payment_sim.Prelude.{
  ℕ, String, Bool, Option, none, some, List, [], ◌∷◌, leb, if◌then◌else◌, take, Result, throw, ok,
}

-- SELECT * FROM dead_letter_jobs ORDER BY failed_at DESC LIMIT 100
unfoldable pub insert_latest : DeadLetter → List DeadLetter → List DeadLetter
insert_latest d [] = d ∷ []
insert_latest d (x ∷ xs) =
    let rest = insert_latest d xs in if leb x.failed_at d.failed_at then d ∷ x ∷ xs else x ∷ rest

unfoldable pub sort_latest : List DeadLetter → List DeadLetter
unfolding insert_latest
sort_latest [] = []
sort_latest (d ∷ ds) = insert_latest d (sort_latest ds)

-- `getDeadLetterJobs`
unfoldable pub get_dead_letter_jobs : Db → Result (List DeadLetter × Db)
unfolding sort_latest
get_dead_letter_jobs db = ok (take 100 (sort_latest db.dead_letter_jobs), db)

pub data Route : Type 0 where
  home live ready metrics info dead_letter unmatched : Route
  status : (id : String) → Route
  pay_route : Request → Route

-- A request, and what the services do while it is served: the fault of the call of Redis, of the
-- statements, and the answer to PING.
pub record HttpRequest : Type 0 where
  pub origin : Option String
  pub ip : String
  pub api_key : Option String
  pub admin_key : Option String
  pub method : String
  pub route : Route
  -- the status of the error that `express.json` throws, if it does
  pub body_error : Option ℕ
  pub now : ℕ
  pub redis : Fault
  pub pong : Result String
  pub faults : List Fault
  -- the time that it takes
  pub nanoseconds : ℕ

pub record Server : Type 0 where
  pub db : Db
  pub counters : Counters
  pub registry : Registry

pub data Answer : Type 0 where
  -- a fixed document
  page : (code : ℕ) → Answer
  -- the answer of a middleware, or of Express
  refused : (code : ℕ) → Answer
  dead_letters : List DeadLetter → Answer
  metrics_text : Db → Answer
  of_status : StatusAnswer → Answer
  of_pay : Response → Answer

abbrev pub session_of : HttpRequest → Db → Session
session_of r db = record { committed = db; working = db; faults = r.faults }

-- `SELECT 1`
abbrev pub select_one : Db → Result (Unit {0} × Db)
select_one db = ok (tt, db)

abbrev pub ready_answer : Result (Unit {0}) → Result Bool → Answer
ready_answer (ok u) (ok pong) = page 200
ready_answer _ _ = refused 503

abbrev pub dead_letter_answer : Result (List DeadLetter) → Answer
dead_letter_answer (ok jobs) = dead_letters jobs
dead_letter_answer (throw error) = refused 500

-- a query of `renderMetrics` that fails rejects the handler: Express answers 500
abbrev pub metrics_answer : Db → Result (Unit {0}) → Answer
metrics_answer db (ok u) = metrics_text db
metrics_answer db (throw error) = refused 500

-- `apiKeyOrAdminAuth`, then the query
abbrev pub status_answer : Host → HttpRequest → String → Db → Result (Unit {0}) → Answer
status_answer h r id db query_ends = elim (api_key_or_admin_auth h r.admin_key r.api_key) [
  | none ↦ of_status unauthorized
  | some auth ↦ elim query_ends [
    | ok u ↦ of_status (get_status h r.admin_key r.api_key id db)
    | throw error ↦ refused 500
  ]
]

-- `adminApiKeyAuth`, then the route
abbrev pub for_admin : Host → HttpRequest → Answer → Answer
for_admin h r a = if admin_api_key_auth h r.admin_key then a else refused 401

abbrev pub path_of : Route → Option String
path_of home = some "/"
path_of live = some "/health/live"
path_of ready = some "/health/ready"
path_of metrics = some "/metrics"
path_of info = some "/info"
path_of (status id) = some "/status/:id"
path_of dead_letter = some "/dead-letter"
path_of (pay_route req) = some "/pay"
path_of unmatched = none

abbrev pub status_answer_code : StatusAnswer → ℕ
status_answer_code unauthorized = 401
status_answer_code not_found = 404
status_answer_code forbidden = 403
status_answer_code (shown row) = 200

-- `res.statusCode`
abbrev pub status_code_of : Answer → ℕ
status_code_of (page code) = code
status_code_of (refused code) = code
status_code_of (dead_letters jobs) = 200
status_code_of (metrics_text db) = 200
status_code_of (of_status a) = status_answer_code a
status_code_of (of_pay response) = response.code

-- what `finish` sees
abbrev pub finished : HttpRequest → Answer → Option String → Finished
finished r a path = record {
  method = r.method;
  base_url = "";
  route_path = path;
  status_code = status_code_of a;
  nanoseconds = r.nanoseconds;
}

module _ (h : Host) (cfg : Config) where
  -- `apiKeyAuth`, then `POST /pay`
  pay_by : Option Auth → Request → HttpRequest → Db → Answer × Db
  pay_by (some (client client_id)) req r db =
      let (response, s) = pay h cfg client_id req (session_of r db) in
      (of_pay response, s.committed)
  pay_by _ req r db = (refused 401, db)

  -- the routes
  answer_route : Route → HttpRequest → Db → Answer × Db
  unfolding pay_by
  answer_route home r db = (page 200, db)
  answer_route live r db = (page 200, db)
  answer_route ready r db = (
    ready_answer (autocommit select_one (session_of r db)).0 (ping_rate_limiter h.env r.pong),
    db,
  )
  answer_route metrics r db =
      (for_admin h r (metrics_answer db (autocommit select_one (session_of r db)).0), db)
  answer_route info r db = (for_admin h r (page 200), db)
  answer_route dead_letter r db =
      (for_admin h r (dead_letter_answer (autocommit get_dead_letter_jobs (session_of r db)).0), db)
  answer_route unmatched r db = (refused 404, db)
  answer_route (status id) r db =
      (status_answer h r id db (autocommit select_one (session_of r db)).0, db)
  answer_route (pay_route req) r db = pay_by (api_key_auth h r.api_key) req r db

  module _ (window_ms max_requests : ℕ) (memory_limiter : HttpRequest → Bool) where
    -- What the rate limiter decides: `apiRateLimiter` counts in Redis in production, and is
    -- express-rate-limit otherwise. `none` lets the request through.
    unfoldable pub limiter : HttpRequest → Counters → Option ℕ × Counters
    limiter r counters =
        if is_production h.env
        then (let (p, counters') =
              redis_rate_limiter window_ms max_requests r.ip r.redis r.now counters in
            (
              elim p [ through l ↦ none | too_many l ↦ some 429 | unavailable ↦ some 503 ],
              counters',
            ))
        else (if memory_limiter r then none else some 429, counters)

    -- the routes, if the limiter lets the request through; `req.route` is set when one matches
    serve : Option ℕ → HttpRequest → Db → (Answer × Db) × Option String
    unfolding answer_route
    serve (some code) r db = ((refused code, db), none)
    serve none r db = (answer_route r.route r db, path_of r.route)

    -- what follows `express.json`: recordHttpMetrics, the limiter, the routes
    after_json : Option ℕ → HttpRequest → Server → Answer × Server
    unfolding serve limiter
    after_json (some code) r s = (refused code, s)
    after_json none r s =
        let (stopped, counters) = limiter r s.counters in
        let ((a, db), path) = serve stopped r s.db in
        (
          a,
          record {
            db = db;
            counters = counters;
            registry = on_finish h (finished r a path) s.registry;
          },
        )

    -- the middleware in the order of `app.use`: cors, express.json, and the rest
    unfoldable pub handle : HttpRequest → Server → Answer × Server
    unfolding after_json
    handle r s =
        let (a, s') = after_json r.body_error r s in
        if is_origin_allowed h.env r.origin then (a, s') else (refused 500, s)
