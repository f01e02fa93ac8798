-- ===== src/Tests/Exposition.antt =====
-- The counters and the text of `/metrics`.
use payment_sim.Metrics.{
  map_get, no_duration, Finished, metric_key, on_finish, safe_route, labels, group_counts,
  event_status_text, metric_lines,
}
use payment_sim.Metrics.Counts.{
  finish_all, empty_registry, metrics_count, group_size, status_counts,
}
use payment_sim.Metrics.Labels.{read_label_value, read_label_value-safe_route}
use payment_sim.Redact.{prepend}
use payment_sim.Store.Tables.{accepted, completed, Db}
use payment_sim.Tests.Samples.{small_host, empty_db, sample_row}
use payment_sim.Jobs.{status_text}
use payment_sim.Prelude.{◌≡◌, refl, false, none, some, [], ◌∷◌, map, length}

abbrev paid : Finished
paid = record {
  method = "POST";
  base_url = "";
  route_path = some "/pay";
  status_code = 202;
  nanoseconds = 1500;
}

abbrev lost : Finished
lost = record paid { route_path = none; status_code = 404; nanoseconds = 20 }

metrics_count_example :
    let reg = finish_all small_host (paid ∷ lost ∷ paid ∷ []) empty_registry in
    let k = metric_key small_host paid in
    (map_get k 0 reg.requests ≡ 2)
    × ((map_get k no_duration reg.durations).count ≡ 2)
    × ((map_get k no_duration reg.durations).summands ≡ 1500 ∷ 1500 ∷ [])
metrics_count_example =
    metrics_count small_host (metric_key small_host paid) (paid ∷ lost ∷ paid ∷ [])

abbrev three_rows : Db
three_rows = record empty_db {
  transactions = sample_row completed ∷ sample_row accepted ∷ sample_row completed ∷ [];
}

completed_rows :
    (group_size "COMPLETED"
        (group_counts (map (λ r. status_text r.status) three_rows.transactions) [])
      ≡ 2)
    × (group_size "COMPLETED"
          (group_counts (map (λ e. event_status_text e.status) three_rows.outbox_events) [])
        ≡ 0)
unfolding status_text
completed_rows = status_counts "COMPLETED" three_rows

read_label_value-safe_route_example :
    read_label_value false (prepend (safe_route "/a\"b\\c") "\",status=\"200\"}")
    ≡ some ("/a\"b\\c", ",status=\"200\"}")
read_label_value-safe_route_example = read_label_value-safe_route "/a\"b\\c" ",status=\"200\"}" refl

text_of_paid : labels (metric_key small_host paid) ≡ "{method=\"POST\",route=\"/pay\",status=\"0\"}"
unfolding labels
text_of_paid = refl

metric_line_count :
    length (
      metric_lines small_host
        (λ s. "0")
        (finish_all small_host (paid ∷ lost ∷ []) empty_registry)
        (record { total = 1; idle = 1; waiting = 0 })
        0
        5000
        three_rows)
    ≡ 34
unfolding metric_lines on_finish status_text
metric_line_count = refl
