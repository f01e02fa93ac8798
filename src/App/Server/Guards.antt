-- ===== src/App/Server/Guards.antt =====
-- What a request must pass before it changes the tables.
use payment_sim.App.{Request, pay}
use payment_sim.App.Server.{
  Route, home, live, ready, metrics, info, dead_letter, unmatched, status, pay_route, HttpRequest,
  Server, session_of, limiter, handle, pay_by, after_json, serve, answer_route,
}
use payment_sim.Auth.{Auth, client, admin, api_key_auth, is_origin_allowed}
use payment_sim.Config.{Config}
use payment_sim.Store.Tables.{Db}
use payment_sim.Value.{Host}
use payment_sim.Prelude.{
  ℕ, String, ◌≡◌, refl, ◌⊎◌, inl, inr, Bool, true, Option, none, some, Bool-cases,
}

module _ (h : Host) (cfg : Config) where
  -- The tables after a request that was let through as a payment of this client.
  abbrev pub Paid : HttpRequest → Db → Db → Type 0
  Paid r db db' =
      (req : Request) × (client_id : String) × (r.route ≡ pay_route req)
      × (api_key_auth h r.api_key ≡ some (client client_id))
      × (db' ≡ (pay h cfg client_id req (session_of r db)).1.committed)

  pay_by-Paid :
      (auth : Option Auth) (req : Request) (r : HttpRequest) (db : Db)
      → api_key_auth h r.api_key ≡ auth
      → r.route ≡ pay_route req
      → ((pay_by h cfg auth req r db).1 ≡ db) ⊎ Paid r db (pay_by h cfg auth req r db).1
  unfolding pay_by
  pay_by-Paid none req r db e at = inl refl
  pay_by-Paid (some (client client_id)) req r db e at = inr (req, client_id, at, e, refl)
  pay_by-Paid (some admin) req r db e at = inl refl

  answer_route-Paid :
      (route : Route) (r : HttpRequest) (db : Db)
      → r.route ≡ route
      → ((answer_route h cfg route r db).1 ≡ db) ⊎ Paid r db (answer_route h cfg route r db).1
  unfolding answer_route
  answer_route-Paid home r db at = inl refl
  answer_route-Paid live r db at = inl refl
  answer_route-Paid ready r db at = inl refl
  answer_route-Paid metrics r db at = inl refl
  answer_route-Paid info r db at = inl refl
  answer_route-Paid dead_letter r db at = inl refl
  answer_route-Paid unmatched r db at = inl refl
  answer_route-Paid (status id) r db at = inl refl
  answer_route-Paid (pay_route req) r db at =
      pay_by-Paid (api_key_auth h r.api_key) req r db refl at

  module _ (window_ms max_requests : ℕ) (memory_limiter : HttpRequest → Bool) where
    serve-Paid :
        (stopped : Option ℕ) (r : HttpRequest) (db : Db)
        → let db' = (serve h cfg window_ms max_requests memory_limiter stopped r db).0.1 in
          (db' ≡ db) ⊎ (stopped ≡ none) × Paid r db db'
    unfolding serve
    serve-Paid (some code) r db = inl refl
    serve-Paid none r db = elim (answer_route-Paid r.route r db refl) [
      | inl same ↦ inl same
      | inr paid ↦ inr (refl, paid)
    ]

    after_json-Paid :
        (body_error : Option ℕ) (r : HttpRequest) (s : Server)
        → let db' = (after_json h cfg window_ms max_requests memory_limiter body_error r s).1.db in
          (db' ≡ s.db)
          ⊎ (body_error ≡ none)
            × ((limiter h cfg window_ms max_requests memory_limiter r s.counters).0 ≡ none)
            × Paid r s.db db'
    unfolding after_json
    after_json-Paid (some code) r s = inl refl
    after_json-Paid none r s =
        elim (serve-Paid (limiter h cfg window_ms max_requests memory_limiter r s.counters).0 r
          s.db) [ inl same ↦ inl same | inr (passed, paid) ↦ inr (refl, passed, paid) ]

-- Only a payment changes the tables: one whose origin is allowed, whose body parses, that the rate
-- limiter lets through, and that carries a client's key. Then the tables are as `POST /pay` leaves
-- them for that client. Any other request leaves them as they are.
pub handle_changes :
    (h : Host) (cfg : Config) (window_ms max_requests : ℕ) (memory_limiter : HttpRequest → Bool)
    (r : HttpRequest) (s : Server)
    → let (a, s') = handle h cfg window_ms max_requests memory_limiter r s in
      (s'.db ≡ s.db)
      ⊎ (is_origin_allowed h.env r.origin ≡ true)
        × (r.body_error ≡ none)
        × ((limiter h cfg window_ms max_requests memory_limiter r s.counters).0 ≡ none)
        × Paid h cfg r s.db s'.db
unfolding handle
handle_changes h cfg window_ms max_requests memory_limiter r s =
    elim (Bool-cases (is_origin_allowed h.env r.origin)) [
      | inl allowed ↦
          rw allowed
            (elim (after_json-Paid h cfg window_ms max_requests memory_limiter r.body_error r s) [
              | inl same ↦ inl same
              | inr (parsed, passed, paid) ↦ inr (refl, parsed, passed, paid)
            ])
      | inr barred ↦ rw barred (inl refl)
    ]
