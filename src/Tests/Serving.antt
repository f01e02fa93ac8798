-- ===== src/Tests/Serving.antt =====
-- Requests to the whole server, with no environment set.
use payment_sim.App.Server.{
  refused, get_dead_letter_jobs, ready, pay_route, HttpRequest, Server, limiter, handle,
}
use payment_sim.App.Server.Guards.{Paid, handle_changes}
use payment_sim.App.Server.Letters.{AtLeast, LatestFirst, count, get_dead_letter_jobs_latest}
use payment_sim.Auth.{api_key_auth, is_origin_allowed}
use payment_sim.Metrics.Counts.{empty_registry}
use payment_sim.Store.Tables.{DeadLetter, Db}
use payment_sim.Store.Sql.{no_fault}
use payment_sim.Value.{end, obj}
use payment_sim.Tests.Samples.{small_host, small_config, purchase_request, empty_db}
use payment_sim.Prelude.{
  ℕ, ◌+◌, ◌≤◌, String, ◌≡◌, refl, ◌⊎◌, true, Option, none, List, [], ◌∷◌, leb, length, All, ok,
}

abbrev quiet_server : Server
quiet_server = record { db = empty_db; counters = λ ip. none; registry = empty_registry }

abbrev ready_request : HttpRequest
ready_request = record {
  origin = none;
  ip = "10.0.0.1";
  api_key = none;
  admin_key = none;
  method = "GET";
  route = ready;
  body_error = none;
  now = 1000;
  redis = no_fault;
  pong = ok "PONG";
  faults = [];
  nanoseconds = 700;
}

abbrev keyless_payment : HttpRequest
keyless_payment = record ready_request { method = "POST"; route = pay_route purchase_request }

handle_changes_example :
    let (a, s) = handle small_host small_config 60000 20 (λ r. true) keyless_payment quiet_server in
    (s.db ≡ empty_db)
    ⊎ (is_origin_allowed (λ name. none) none ≡ true)
      × (◌≡◌ {A = Option ℕ} none none)
      × ((limiter small_host small_config 60000 20 (λ r. true) keyless_payment (λ ip. none)).0
          ≡ none)
      × Paid small_host small_config keyless_payment empty_db s.db
handle_changes_example =
    handle_changes small_host small_config 60000 20 (λ r. true) keyless_payment quiet_server

abbrev letter : String → ℕ → DeadLetter
letter id t = record {
  job_id = id;
  txn_id = none;
  queue_name = "transaction-processing";
  payload = obj end;
  failed_reason = "late";
  attempts_made = 3;
  failed_at = t;
}

abbrev two_letters : Db
two_letters = record empty_db { dead_letter_jobs = letter "a" 10 ∷ letter "b" 20 ∷ [] }

get_dead_letter_jobs_latest_example :
    (jobs rest : List DeadLetter) × (get_dead_letter_jobs two_letters ≡ ok (jobs, two_letters))
    × LatestFirst jobs
    × (count (λ d. leb 15 d.failed_at) jobs + count (λ d. leb 15 d.failed_at) rest ≡ 1)
    × All (λ d. All (AtLeast d) rest) jobs
    × (length jobs ≤ 100)
    × ((length jobs ≡ 100) ⊎ (rest ≡ []))
get_dead_letter_jobs_latest_example =
    get_dead_letter_jobs_latest (λ d. leb 15 d.failed_at) two_letters

keyless_payment_refused :
    (handle small_host small_config 60000 20 (λ r. true) keyless_payment quiet_server).0
    ≡ refused 401
unfolding handle api_key_auth is_origin_allowed
keyless_payment_refused = refl
