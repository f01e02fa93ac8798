-- ===== src/Metrics.antt =====
-- observability/metrics.js: the counters of finished requests, and the text of `/metrics`.
pub mod Counts
pub mod Labels
use Prim.Native.Char.{Char, code}
use Prim.Native.String
use payment_sim.Value.{Host, get}
use payment_sim.Value.Numbers.{of_ℕ}
use payment_sim.Store.Tables.{processing, Row, EventStatus, pending, sent, outbox_failed, Event, Db}
use payment_sim.Store.Updates.{expired}
use payment_sim.Jobs.{status_text}
use payment_sim.Redact.{prepend}
use payment_sim.Prelude.{
  ℕ, ◌+◌, ◌-◌, ◌/◌, String, Bool, false, ◌&&◌, Option, none, some, List, [], ◌∷◌, ◌++◌, map, ◌==◌,
  ltb, leb, eqb, if◌then◌else◌, length, select,
}

-- A key is the JSON text of `[method, route, String(status)]`, which `labels` parses again: the
-- model keeps the three texts.
pub record MetricKey : Type 0 where
  pub method : String
  pub route : String
  pub status : String

abbrev pub same_key : MetricKey → MetricKey → Bool
same_key a b = a.method == b.method && a.route == b.route && a.status == b.status

-- `sum` adds up the seconds of the requests in floating point: the model keeps the summands, in
-- nanoseconds.
pub record Duration : Type 0 where
  pub count : ℕ
  pub summands : List ℕ

-- the two Maps, in insertion order
pub record Registry : Type 0 where
  pub requests : List (MetricKey × ℕ)
  pub durations : List (MetricKey × Duration)

-- `map.get(key) || default`
unfoldable pub map_get {ℓ} : {A : Type ℓ} → MetricKey → A → List (MetricKey × A) → A
map_get k default [] = default
map_get k default ((j, a) ∷ rest) = if same_key j k then a else map_get k default rest

-- `map.set(key, a)`
unfoldable pub map_set {ℓ} :
    {A : Type ℓ} → MetricKey → A → List (MetricKey × A) → List (MetricKey × A)
map_set k a [] = (k, a) ∷ []
map_set k a ((j, b) ∷ rest) = if same_key j k then (j, a) ∷ rest else (j, b) ∷ map_set k a rest

abbrev pub no_duration : Duration
no_duration = record { count = 0; summands = [] }

-- A request as the `finish` handler sees it: `req.route` is there if a route matched.
pub record Finished : Type 0 where
  pub method : String
  pub base_url : String
  pub route_path : Option String
  pub status_code : ℕ
  pub nanoseconds : ℕ

abbrev pub route_of : Finished → String
route_of f = elim f.route_path [ none ↦ "unmatched" | some path ↦ String.◌++◌ f.base_url path ]

abbrev pub metric_key : Host → Finished → MetricKey
metric_key h f = record {
  method = f.method;
  route = route_of f;
  status = h.string_of_number (of_ℕ f.status_code);
}

-- the handler of `finish` in `recordHttpMetrics`
unfoldable pub on_finish : Host → Finished → Registry → Registry
unfolding map_get map_set
on_finish h f reg =
    let key = metric_key h f in
    let current = map_get key no_duration reg.durations in
    record {
      requests = map_set key (map_get key 0 reg.requests + 1) reg.requests;
      durations =
          map_set key
            (record {
              count = current.count + 1;
              summands = current.summands ++ f.nanoseconds ∷ [];
            })
            reg.durations;
    }

-- `s.replace(c, replacement)` with the flag `g`, for one character
unfoldable pub replace_char : ℕ → String → String → String
unfolding prepend
replace_char c replacement String.[] = ""
replace_char c replacement (String.◌∷◌ x s) =
    let rest = replace_char c replacement s in
    if eqb (code x) c then prepend replacement rest else String.◌∷◌ x rest

unfoldable pub safe_route : String → String
unfolding replace_char
safe_route route = replace_char b'"' "\\\"" (replace_char b'\\' "\\\\" route)

-- a template literal
unfoldable pub concat : List String → String
concat [] = ""
concat (s ∷ ss) = String.◌++◌ s (concat ss)

unfoldable pub labels : MetricKey → String
unfolding safe_route concat
labels k = concat (
    "{method=\""
    ∷ k.method
    ∷ "\",route=\""
    ∷ safe_route k.route
    ∷ "\",status=\""
    ∷ k.status
    ∷ "\"}"
    ∷ [])

-- SELECT status, COUNT(*) ... GROUP BY status; the order of the groups is that of their first rows
unfoldable pub count_in : String → List (String × ℕ) → List (String × ℕ)
count_in s [] = (s, 1) ∷ []
count_in s ((t, n) ∷ rest) = if t == s then (t, n + 1) ∷ rest else (t, n) ∷ count_in s rest

unfoldable pub group_counts : List String → List (String × ℕ) → List (String × ℕ)
unfolding count_in
group_counts [] groups = groups
group_counts (s ∷ ss) groups = group_counts ss (count_in s groups)

abbrev pub event_status_text : EventStatus → String
event_status_text pending = "PENDING"
event_status_text EventStatus.processing = "PROCESSING"
event_status_text sent = "SENT"
event_status_text outbox_failed = "OUTBOX_FAILED"

-- `COALESCE(EXTRACT(EPOCH FROM (CURRENT_TIMESTAMP - MIN(...))), 0)::integer`, of times that are past
abbrev pub least : Option ℕ → Option ℕ → Option ℕ
least none b = b
least a none = a
least (some a) (some b) = some (if leb a b then a else b)

unfoldable pub minimum : List (Option ℕ) → Option ℕ
minimum [] = none
minimum (t ∷ ts) = least t (minimum ts)

abbrev pub age_seconds : ℕ → Option ℕ → ℕ
age_seconds now none = 0
age_seconds now (some t) = (now - t + 500) / 1000

abbrev pub has_event_status : String → Event → Bool
has_event_status s e = event_status_text e.status == s

unfoldable pub oldest_pending_seconds : ℕ → Db → ℕ
unfolding minimum
oldest_pending_seconds now db =
    age_seconds now (
      minimum (map (λ e. some e.created_at) (select (has_event_status "PENDING") db.outbox_events)))

unfoldable pub oldest_processing_seconds : ℕ → Db → ℕ
unfolding minimum
oldest_processing_seconds now db =
    age_seconds now
      (minimum (map (λ e. e.claimed_at) (select (has_event_status "PROCESSING") db.outbox_events)))

-- `status = 'PROCESSING' AND lease_expires_at IS NOT NULL AND lease_expires_at < CURRENT_TIMESTAMP`
abbrev pub lease_ran_out : ℕ → Row → Bool
lease_ran_out now r =
    status_text r.status == "PROCESSING"
    && elim r.lease_expires_at [ none ↦ false | some t ↦ ltb t now ]

-- what the pg pool reports of itself
pub record PoolCounts : Type 0 where
  pub total : ℕ
  pub idle : ℕ
  pub waiting : ℕ

module _ (h : Host) (print_sum : List ℕ → String) where
  abbrev number : ℕ → String
  number n = h.string_of_number (of_ℕ n)

  request_line : MetricKey × ℕ → String
  request_line (key, count) =
      concat ("payment_sim_http_requests_total" ∷ labels key ∷ " " ∷ number count ∷ [])

  duration_lines : List (MetricKey × Duration) → List String
  duration_lines [] = []
  duration_lines ((key, d) ∷ rest) =
      concat
        ("payment_sim_http_request_duration_seconds_count" ∷ labels key ∷ " " ∷ number d.count ∷ [])
      ∷ concat (
          "payment_sim_http_request_duration_seconds_sum"
          ∷ labels key
          ∷ " "
          ∷ print_sum d.summands
          ∷ [])
      ∷ duration_lines rest

  status_line : String → String × ℕ → String
  status_line name (status, n) = concat (name ∷ "{status=\"" ∷ status ∷ "\"} " ∷ number n ∷ [])

  -- `renderMetrics`: the lines, of one state of the tables
  unfoldable pub metric_lines : Registry → PoolCounts → ℕ → ℕ → Db → List String
  unfolding request_line duration_lines status_line group_counts oldest_pending_seconds
      oldest_processing_seconds
  metric_lines reg pool started_at now db =
      ("# HELP payment_sim_uptime_seconds Process uptime in seconds."
        ∷ "# TYPE payment_sim_uptime_seconds gauge"
        ∷ concat ("payment_sim_uptime_seconds " ∷ number ((now - started_at) / 1000) ∷ [])
        ∷ "# HELP payment_sim_http_requests_total HTTP requests handled by the API."
        ∷ "# TYPE payment_sim_http_requests_total counter"
        ∷ [])
      ++ (map request_line reg.requests
          ++ ("# HELP payment_sim_http_request_duration_seconds HTTP request duration."
              ∷ "# TYPE payment_sim_http_request_duration_seconds summary"
              ∷ duration_lines reg.durations)
          ++ ("# HELP payment_sim_db_pool_connections PostgreSQL pool connections."
              ∷ "# TYPE payment_sim_db_pool_connections gauge"
              ∷ concat
                  ("payment_sim_db_pool_connections{state=\"total\"} " ∷ number pool.total ∷ [])
              ∷ concat ("payment_sim_db_pool_connections{state=\"idle\"} " ∷ number pool.idle ∷ [])
              ∷ concat
                  ("payment_sim_db_pool_connections{state=\"waiting\"} " ∷ number pool.waiting ∷ [])
              ∷ "# HELP payment_sim_transactions Transactions by lifecycle status."
              ∷ "# TYPE payment_sim_transactions gauge"
              ∷ map (status_line "payment_sim_transactions")
                  (group_counts (map (λ r. status_text r.status) db.transactions) []))
          ++ ("# HELP payment_sim_outbox_events Outbox events by status."
              ∷ "# TYPE payment_sim_outbox_events gauge"
              ∷ map (status_line "payment_sim_outbox_events")
                  (group_counts (map (λ e. event_status_text e.status) db.outbox_events) []))
          ++ ("# HELP payment_sim_outbox_oldest_event_age_seconds Oldest outbox event age by processing state."
              ∷ "# TYPE payment_sim_outbox_oldest_event_age_seconds gauge"
              ∷ concat (
                  "payment_sim_outbox_oldest_event_age_seconds{state=\"pending\"} "
                  ∷ number (oldest_pending_seconds now db)
                  ∷ [])
              ∷ concat (
                  "payment_sim_outbox_oldest_event_age_seconds{state=\"processing\"} "
                  ∷ number (oldest_processing_seconds now db)
                  ∷ [])
              ∷ "# HELP payment_sim_expired_processing_leases Processing transactions whose worker lease has expired."
              ∷ "# TYPE payment_sim_expired_processing_leases gauge"
              ∷ concat (
                  "payment_sim_expired_processing_leases "
                  ∷ number (length (select (lease_ran_out now) db.transactions))
                  ∷ [])
              ∷ "# HELP payment_sim_dead_letter_jobs Durable dead-letter job count."
              ∷ "# TYPE payment_sim_dead_letter_jobs gauge"
              ∷ concat ("payment_sim_dead_letter_jobs " ∷ number (length db.dead_letter_jobs) ∷ [])
              ∷ []))

  -- `${lines.join("\n")}\n`
  unfoldable pub render_metrics : Registry → PoolCounts → ℕ → ℕ → Db → String
  unfolding metric_lines
  render_metrics reg pool started_at now db =
      concat (map (λ line. String.◌++◌ line "\n") (metric_lines reg pool started_at now db))
