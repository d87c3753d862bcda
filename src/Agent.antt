-- ===== src/Agent.antt =====
-- agent/src/main.cpp: the threads of `main` with all that they call: what `MetricsCollector::collect` returns
-- is pushed, what the sender takes goes to `HttpClient::send_metrics`, and both log. A step is one of the
-- pipeline's, or one call of `log_event`. What /proc holds and what libcurl does is any at each step.
pub mod Refines
pub mod Served
pub mod Told
pub mod Turns
pub mod Logs
pub mod Whole
pub mod Payload
pub mod Tests
use real_time_system_metrics.Base.{
  ℕ, ◌≡◌, ◌≢◌, Bool, true, false, List, [], ◌∷◌, ◌++◌, Option, none, some, Bytes, codes, length,
  map, if◌then◌else◌,
}
use real_time_system_metrics.Double.{Double}
use real_time_system_metrics.Config.{AgentConfig}
use real_time_system_metrics.Startup.{LogCall}
use real_time_system_metrics.Metrics.{SystemMetrics}
use real_time_system_metrics.Cpu.Usage.{total_statics, core_statics}
use real_time_system_metrics.Collector.{Readings, Statics, collect}
use real_time_system_metrics.HttpClient.{metrics_to_json}
use real_time_system_metrics.HttpClient.Send.{Client, new_client, Transfer, url_of}
use real_time_system_metrics.Pipeline.{
  System, initial, Step, signal, go_on, stop, leave, block, wake_spuriously, see_exit, notify_all,
  join_collector, collecting, pushing, notifying, sleeping, testing, entering, sending, done,
  joining_sender, returned, notified, pushed, after_round, after_send, dozing,
}
use real_time_system_metrics.Pipeline.Queue.{push, sender_round}
use real_time_system_metrics.Pipeline.Sending.{collector_logs, collector_error, deliver}

-- Who calls `log_event`.
pub data Speaker : Type 0 where
  main_thread collector_thread sender_thread : Speaker

abbrev pub spoken : Speaker → List LogCall → List (Speaker × LogCall)
spoken who = map λ call. (who, call)

-- The process: the threads and the queue, the statics of the collector's functions, `dropped_oldest` and
-- `queue_size`, what the collector has still to log in this round, the client, what the sender has still to
-- log, and the history: the requests to libcurl (URL and body), the snapshots that the sender has dealt
-- with and what libcurl did with each, and the calls of `log_event`.
pub record Process (W : Type 0) : Type 0 where
  pub threads : System (SystemMetrics W)
  pub statics : Statics
  pub dropped_oldest : Bool
  pub queue_size : ℕ
  pub collector_says : List LogCall
  pub client : Client
  pub sender_says : List LogCall
  pub requests : List (Bytes × Bytes)
  pub deliveries : List (SystemMetrics W × Option Transfer)
  pub logs : List (Speaker × LogCall)

-- `main` with its configuration and what it has logged, as it starts the threads.
abbrev pub started : (W : Type 0) → AgentConfig → List LogCall → Process W
started W config logs = record {
  threads = initial (SystemMetrics W);
  statics = record { total = total_statics; core = core_statics };
  dropped_oldest = false;
  queue_size = 0;
  collector_says = [];
  client = new_client config.backend_url;
  sender_says = [];
  requests = [];
  deliveries = [];
  logs = spoken main_thread logs;
}

abbrev pub agent_stop : LogCall
agent_stop = record {
  level = codes "INFO";
  event = codes "agent.stop";
  message = codes "Metrics agent exited cleanly";
  fields = [];
}

-- The steps of the threads that call nothing else.
abbrev pub IsQuiet : {M : Type 0} {config : AgentConfig} {s t : System M} → Step config s t → Type 0
IsQuiet signal = Unit
IsQuiet (go_on e x) = Unit
IsQuiet (stop e x) = Unit
IsQuiet (leave e) = Unit
IsQuiet (block e) = Unit
IsQuiet (wake_spuriously e) = Unit
IsQuiet (see_exit e x) = Unit
IsQuiet (notify_all e) = Unit
IsQuiet (join_collector e c) = Unit
IsQuiet _ = ⊥

module _ {W : Type 0} ⦃d : Double W⦄ where
  -- What libcurl does with a snapshot: `none` if `send_metrics` is not called, or gets no handle.
  abbrev pub answered :
      AgentConfig → (Bytes → Bytes → Option Transfer) → Client → SystemMetrics W → Option Transfer
  answered config curl client m =
      if config.backend_enabled then curl (url_of client) (metrics_to_json m) else none

  -- The request that `send_metrics` makes, if it has a handle.
  abbrev pub asked : Client → SystemMetrics W → Option Transfer → List (Bytes × Bytes)
  asked client m none = []
  asked client m (some transfer) = (url_of client, metrics_to_json m) ∷ []

  -- `push_back` and what the collector remembers of it.
  abbrev pub after_push : AgentConfig → SystemMetrics W → Process W → Process W
  after_push config m s =
      let (queue, dropped_oldest) = push config.queue_capacity m s.threads.queue in
      record s {
        threads = pushed config m s.threads;
        dropped_oldest = dropped_oldest;
        queue_size = length queue;
      }

  -- The sender's round behind its critical section.
  abbrev pub after_delivery :
      AgentConfig → (Bytes → Bytes → Option Transfer) → SystemMetrics W → Process W → Process W
  after_delivery config curl m s =
      let (call, client) = deliver config curl m s.client in
      let outcome = answered config curl s.client m in
      record s {
        threads = after_send config m s.threads;
        client = client;
        sender_says = call ∷ [];
        requests = s.requests ++ asked s.client m outcome;
        deliveries = s.deliveries ++ (m, outcome) ∷ [];
      }

  pub data Act (config : AgentConfig) (s : Process W) : Process W → Type 0 where
    thread :
        {t : System (SystemMetrics W)} (st : Step config s.threads t)
        → IsQuiet st
        → Act config s (record s { threads = t })
    -- the collector
    collect_one :
        (r : Readings) (m : SystemMetrics W)
        → s.threads.collector ≡ collecting
        → (collect config.selection r s.statics).0 ≡ some m
        → Act config s (record s {
          threads = record s.threads { collector = pushing m };
          statics = (collect {W = W} config.selection r s.statics).1;
        })
    collect_fails :
        (r : Readings) (what : Bytes)
        → s.threads.collector ≡ collecting
        → (collect {W = W} config.selection r s.statics).0 ≡ none
        → Act config s (record s {
          threads = record s.threads { collector = sleeping };
          statics = (collect {W = W} config.selection r s.statics).1;
          collector_says = collector_error what ∷ [];
        })
    push_one :
        (m : SystemMetrics W)
        → s.threads.collector ≡ pushing m
        → s.threads.sender ≢ dozing
        → Act config s (after_push config m s)
    notify_one :
        s.threads.collector ≡ notifying
        → Act config s (record s {
          threads = record s.threads { collector = sleeping; sender = notified s.threads.sender };
          collector_says = collector_logs config s.dropped_oldest s.queue_size;
        })
    collector_logs_one :
        (call : LogCall) (rest : List LogCall)
        → s.collector_says ≡ call ∷ rest
        → Act config s
            (record s { collector_says = rest; logs = s.logs ++ (collector_thread, call) ∷ [] })
    wake_up :
        s.threads.collector ≡ sleeping
        → s.collector_says ≡ []
        → Act config s (record s { threads = record s.threads { collector = testing } })
    -- the sender
    enter :
        s.threads.sender ≡ entering
        → s.sender_says ≡ []
        → Act config s (record s {
          threads = after_round s.threads (sender_round s.threads.should_exit s.threads.queue);
        })
    send :
        (curl : Bytes → Bytes → Option Transfer) (m : SystemMetrics W)
        → s.threads.sender ≡ sending m
        → Act config s (after_delivery config curl m s)
    sender_logs_one :
        (call : LogCall) (rest : List LogCall)
        → s.sender_says ≡ call ∷ rest
        → Act config s
            (record s { sender_says = rest; logs = s.logs ++ (sender_thread, call) ∷ [] })
    -- `main`
    join_sender :
        s.threads.main ≡ joining_sender
        → s.threads.sender ≡ done
        → Act config s (record s {
          threads = record s.threads { main = returned };
          logs = s.logs ++ (main_thread, agent_stop) ∷ [];
        })

  pub data Run (config : AgentConfig) (logs : List LogCall) : Process W → Type 0 where
    start : Run config logs (started W config logs)
    next : {s t : Process W} → Run config logs s → Act config s t → Run config logs t
