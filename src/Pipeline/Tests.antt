-- ===== src/Pipeline/Tests.antt =====
-- The pipeline's theorems at concrete states.
use real_time_system_metrics.Base.{
  ℕ, ◌≡◌, ◌≤◌, ◌↔◌, refl, true, [], ◌∷◌, ◌++◌, arith, length, codes, map, bytes_eq, bytes_lt,
}
use real_time_system_metrics.CppStd.Numbers.{int_to_string, to_string}
use real_time_system_metrics.Logger.Fields.{map_of, insert_field}
use real_time_system_metrics.Config.{defaults}
use real_time_system_metrics.Pipeline.{System, initial, Reach, ended, done, returned}
use real_time_system_metrics.Pipeline.History.{
  IsAccounted, Reach-IsAccounted, snapshots, sender_took,
}
use real_time_system_metrics.Pipeline.Shutdown.{returned-IsComplete, snapshot_lost, IsHung}
use real_time_system_metrics.Pipeline.Queue.{push}
use real_time_system_metrics.Pipeline.Progress.{Steps, Returns, IsLost}
use real_time_system_metrics.Pipeline.Liveness.{Returns-IsLost, lost_wake_up}
use real_time_system_metrics.Pipeline.Sending.{
  deliver, log_result, IsDelivered, deliver-IsDelivered, collector_logs,
}
use real_time_system_metrics.Double.Fixed.{fixed_double}
use real_time_system_metrics.Startup.{LogCall}
use real_time_system_metrics.HttpClient.{metrics_to_json}
use real_time_system_metrics.HttpClient.Send.{url_of, send_metrics}
use real_time_system_metrics.HttpClient.Tests.{snapshot, busy, client}

-- A full queue drops its oldest snapshot.
full_queue : push {M = ℕ} 2 7 (5 ∷ 6 ∷ []) ≡ (6 ∷ 7 ∷ [], true)
unfolding push
full_queue = refl

-- The state that `snapshot_lost` ends in.
abbrev lost :
    (s : System ℕ) × Reach defaults s
    × (s.main ≡ returned)
    × (s.queue ≡ 7 ∷ [])
    × (s.collected ≡ 7 ∷ [])
    × (s.posted ≡ [])
lost = snapshot_lost 7

Reach-IsAccounted_example : IsAccounted defaults lost.0
Reach-IsAccounted_example = Reach-IsAccounted (omega arith) lost.1

returned-IsComplete_example :
    let s = lost.0 in
    (s.should_exit ≡ true)
    × (s.collector ≡ ended)
    × (s.sender ≡ done)
    × (length s.queue ≤ 1)
    × (snapshots s.gone ++ s.queue ≡ s.collected)
    × (defaults.backend_enabled ≡ true → s.posted ≡ sender_took s.gone)
returned-IsComplete_example = returned-IsComplete (omega arith) lost.1 lost.2

snapshot_lost_example :
    (s : System ℕ) × Reach defaults s
    × (s.main ≡ returned)
    × (s.queue ≡ 7 ∷ [])
    × (s.collected ≡ 7 ∷ [])
    × (s.posted ≡ [])
snapshot_lost_example = snapshot_lost 7

lost_wake_up_example :
    (s : System ℕ) × Reach defaults s
    × IsHung s
    × (s.should_exit ≡ true)
    × ((t : System ℕ) → Steps defaults s t → IsHung t)
lost_wake_up_example = lost_wake_up

-- At the start, `main` can still return.
Returns-IsLost_example : Returns {M = ℕ} defaults (initial ℕ) ↔ ¬ IsLost (initial ℕ)
Returns-IsLost_example = Returns-IsLost (initial ℕ)

-- A backend that answers 503.
busy_fields :
    (deliver defaults busy snapshot client).0.fields
    ≡ (codes "error", codes "Backend returned HTTP 503 with response: try later")
      ∷ (codes "http_status", codes "503")
      ∷ (codes "timestamp", codes "1700000000")
      ∷ []
unfolding deliver log_result map_of insert_field bytes_eq bytes_lt send_metrics int_to_string
    to_string
busy_fields = refl

deliver-IsDelivered_example :
    let r = deliver defaults busy snapshot client in
    IsDelivered defaults client (busy (url_of client) (metrics_to_json snapshot)) snapshot r.0 r.1
deliver-IsDelivered_example = deliver-IsDelivered defaults busy snapshot client

-- A dropped snapshot is logged before the one that was kept.
overflow_events :
    map (λ (c : LogCall). c.event) (collector_logs defaults true 3)
    ≡ codes "collector.queue_overflow" ∷ codes "collector.snapshot" ∷ []
unfolding collector_logs
overflow_events = refl
