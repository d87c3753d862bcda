-- ===== src/Agent/Tests.antt =====
-- A whole run of the agent, and its theorems at it.
use real_time_system_metrics.Base.{
  ◌≡◌, refl, List, [], Option, none, some, Bytes, pos, All, sym, ◌∙◌, ◌^◌, arith,
}
use real_time_system_metrics.Double.Fixed.{Fixed, fixed_double, Fixed-IsIeee}
use real_time_system_metrics.Config.{defaults}
use real_time_system_metrics.Startup.{LogCall, running, start_main}
use real_time_system_metrics.Startup.Args.{scan_config, apply_args}
use real_time_system_metrics.Collector.{collect, top_processes_at}
use real_time_system_metrics.Cpu.{read_linux_cpu_times, read_linux_per_core_cpu_times}
use real_time_system_metrics.Cpu.Usage.{get_total_cpu, get_per_core_cpu}
use real_time_system_metrics.Collector.Memory.{get_system_memory}
use real_time_system_metrics.HttpClient.Send.{Transfer}
use real_time_system_metrics.Pipeline.{
  signal, go_on, stop, leave, see_exit, notify_all, join_collector, returned,
}
use real_time_system_metrics.Pipeline.Queue.{push, sender_round}
use real_time_system_metrics.Pipeline.Sending.{deliver, collector_logs}
use mathlib.Core.Path.{subst}
use real_time_system_metrics.Collector.Tests.{
  busy_readings, busy_snapshot, busy_collected, busy_stat,
}
use real_time_system_metrics.Double.Range.{IsWithin, Fixed-IsRanged}
use real_time_system_metrics.HttpClient.Lexer.{IsPlain}
use real_time_system_metrics.HttpClient.Tokens.{IsPrintable}
use real_time_system_metrics.HttpClient.Printed.{fixed-IsPrintable}
use real_time_system_metrics.Proc.Stat.{StatResult, stat_fields}
use real_time_system_metrics.Agent.Served.{AreRead}
use real_time_system_metrics.Agent.Payload.{IsReadable, IsPayload, Run-IsPayload}
use real_time_system_metrics.Agent.{
  Process, thread, collect_one, push_one, notify_one, collector_logs_one, wake_up, enter, send,
  sender_logs_one, join_sender, Run, start, next,
}
use real_time_system_metrics.Agent.Whole.{IsWhole, returned-IsWhole}

abbrev accepting : Bytes → Bytes → Option Transfer
accepting url body =
    some (record { result = none; response_code = pos 200; curl_error = []; chunks = [] })

abbrev startup : List LogCall
startup = (start_main none none [] (λ path. none)).0

-- One snapshot is collected, pushed, sent and logged; then the exit is asked for.
unfoldable one_round : (s : Process Fixed) × Run defaults startup s × (s.threads.main ≡ returned)
unfolding collect push sender_round deliver collector_logs start_main top_processes_at
    read_linux_cpu_times get_total_cpu get_per_core_cpu get_system_memory
    read_linux_per_core_cpu_times
one_round = (
  _,
  next
      (next
        (next
          (next
            (next
              (next
                (next
                  (next
                    (next
                      (next
                        (next
                          (next
                            (next
                              (next
                                (next
                                  (next (next start (thread (go_on refl refl) tt))
                                    (collect_one busy_readings busy_snapshot refl busy_collected))
                                  (push_one busy_snapshot refl (λ e. cc e)))
                                (notify_one refl))
                              (enter refl refl))
                            (send accepting busy_snapshot refl))
                          (collector_logs_one _ _ refl))
                        (sender_logs_one _ _ refl))
                      (thread signal tt))
                    (wake_up refl refl))
                  (thread (stop refl refl) tt))
                (thread (leave refl) tt))
              (enter refl refl))
            (thread (see_exit refl refl) tt))
          (thread (notify_all refl) tt))
        (thread (join_collector refl refl) tt))
      (join_sender refl refl),
  refl,
)

startup-running : start_main none none [] (λ path. none) ≡ (startup, running defaults)
unfolding start_main scan_config apply_args
startup-running = refl

returned-IsWhole_example : IsWhole defaults startup one_round.0
returned-IsWhole_example =
    returned-IsWhole Fixed-IsIeee none none [] (λ path. none) startup-running one_round.1
      one_round.2

fixed_prints : (x : Fixed) → IsWithin (2 ^ 128) x → IsPrintable x
fixed_prints (some a) h = fixed-IsPrintable a
fixed_prints none h = absurd (cc (h.0))

abbrev first_name : StatResult → Bytes
first_name (stat_fields name cpu_time rss) = name
first_name _ = []

busy-IsReadable : IsReadable busy_readings
busy-IsReadable = record {
  page_size = omega arith;
  names =
      λ pid name cpu_time rss e. subst (λ r. IsPlain (first_name r)) (sym busy_stat ∙ e) (refl, tt);
}

round-AreRead : AreRead IsReadable one_round.1
unfolding one_round
round-AreRead = search busy-IsReadable

Run-IsPayload_example : All (λ r. IsPayload Fixed defaults r.1) one_round.0.requests
Run-IsPayload_example =
    Run-IsPayload Fixed-IsIeee Fixed-IsRanged fixed_prints (omega arith) one_round.1 round-AreRead
