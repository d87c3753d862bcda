-- ===== src/Agent/Logs.antt =====
-- What the process has logged.
use mathlib.Core.Path.{subst}
use mathlib.Core.List.{map-append}
use real_time_system_metrics.Base.{
  ◌≡◌, ◌∙◌, sym, ap, refl, List, [], ◌∷◌, ◌++◌, append_assoc, append-nil, Option, map, none,
  if◌then◌else◌, Bool-cases, inl, inr, flat_map-append, Bytes,
}
use real_time_system_metrics.Double.{Double}
use real_time_system_metrics.Config.{AgentConfig}
use real_time_system_metrics.Startup.{LogCall}
use real_time_system_metrics.Metrics.{SystemMetrics}
use real_time_system_metrics.HttpClient.{metrics_to_json}
use real_time_system_metrics.HttpClient.Send.{Client, Transfer, url_of}
use real_time_system_metrics.Pipeline.{joining_sender, returned, sending}
use real_time_system_metrics.Pipeline.Queue.{sender_round}
use real_time_system_metrics.Pipeline.History.{in_flight, in_flight-notified}
use real_time_system_metrics.Pipeline.Sending.{deliver, IsDelivered, deliver-IsDelivered}
use real_time_system_metrics.Agent.{
  Process, main_thread, collector_thread, sender_thread, agent_stop, answered, after_delivery, Act,
  thread, collect_one, collect_fails, push_one, notify_one, collector_logs_one, wake_up, enter,
  send, sender_logs_one, join_sender, Run, start, next,
}
use real_time_system_metrics.Agent.Told.{
  snapshot_in, said_by_sender, said_by_main, sender_logs, main_logs, said-start, said-main, All2,
  All2-append, farewell, Tells, IsTold, notified-entering,
}
use real_time_system_metrics.Agent.Turns.{quiet-IsHeld, IsTold-held, round-IsTold, push-IsTold}

module _ {W : Type 0} ⦃d : Double W⦄ {config : AgentConfig} where
  -- With the backend disabled, what libcurl would have done does not matter.
  deliver-Tells :
      (curl : Bytes → Bytes → Option Transfer) (m : SystemMetrics W) (c : Client)
      → let r = deliver config curl m c in IsDelivered config c (answered config curl c m) m r.0 r.1
  deliver-Tells curl m c =
      let v = deliver-IsDelivered config curl m c in
      elim (Bool-cases config.backend_enabled) [
        | inl on ↦
            subst
              (λ b.
                IsDelivered config c (if b then curl (url_of c) (metrics_to_json m) else none) m
                  (deliver config curl m c).0 (deliver config curl m c).1)
              (sym on) v
        | inr off ↦ record {
          url = v.url;
          skipped = v.skipped;
          sent = λ on. absurd (cc (on, off));
          failed = λ on. absurd (cc (on, off));
        }
      ]

  -- A delivery: the sender will say what became of the snapshot.
  delivery-IsTold :
      {logs : List LogCall} (curl : Bytes → Bytes → Option Transfer) (m : SystemMetrics W)
      (s : Process W)
      → IsTold config logs s
      → s.threads.sender ≡ sending m
      → IsTold config logs (after_delivery config curl m s)
  delivery-IsTold curl m s v e = record {
    taken =
        ap (λ ds. ds ++ []) (map-append snapshot_in s.deliveries (delivery ∷ []))
        ∙ append-nil (map snapshot_in s.deliveries ++ m ∷ [])
        ∙ ap (λ x. map snapshot_in s.deliveries ++ in_flight x) (sym e)
        ∙ v.taken;
    told =
        let (call, client) = deliver config curl m s.client in
        let before : All2 (Tells config) s.deliveries (sender_logs s.logs) =
          rw (append-nil (sender_logs s.logs)) at (rw (v.silent (λ x. cc (e, x))) at v.told) in
        All2-append (Tells config) s.deliveries (sender_logs s.logs) delivery call before
          (s.client, client, deliver-Tells curl m s.client);
    silent = λ h. absurd (h refl);
    main = v.main;
  }
    where
      delivery : SystemMetrics W × Option Transfer
      delivery = (m, answered config curl s.client m)

  -- The sender says it.
  said-IsTold :
      {logs : List LogCall} (s : Process W) (call : LogCall) (rest : List LogCall)
      → IsTold config logs s
      → s.sender_says ≡ call ∷ rest
      → IsTold config logs
          (record s { sender_says = rest; logs = s.logs ++ (sender_thread, call) ∷ [] })
  said-IsTold s call rest v e = record {
    taken = v.taken;
    told =
        let moved : sender_logs (s.logs ++ (sender_thread, call) ∷ []) ++ rest
            ≡ sender_logs s.logs ++ s.sender_says =
          ap (λ l. l ++ rest) (flat_map-append said_by_sender s.logs (sender_thread, call))
          ∙ append_assoc (sender_logs s.logs) (call ∷ []) rest
          ∙ ap (λ l. sender_logs s.logs ++ l) (sym e) in
        rw moved v.told;
    silent = λ h. absurd (cc (v.silent h, e));
    main =
        flat_map-append said_by_main s.logs (sender_thread, call)
        ∙ append-nil (main_logs s.logs)
        ∙ v.main;
  }

  -- The collector says something.
  other-IsTold :
      {logs : List LogCall} (s : Process W) (call : LogCall) (rest : List LogCall)
      → IsTold config logs s
      → IsTold config logs
          (record s { collector_says = rest; logs = s.logs ++ (collector_thread, call) ∷ [] })
  other-IsTold s call rest v = record {
    taken = v.taken;
    told =
        rw
          (
            flat_map-append said_by_sender s.logs (collector_thread, call),
            append-nil (sender_logs s.logs),
          )
          v.told;
    silent = v.silent;
    main =
        flat_map-append said_by_main s.logs (collector_thread, call)
        ∙ append-nil (main_logs s.logs)
        ∙ v.main;
  }

  -- `main` says farewell.
  return-IsTold :
      {logs : List LogCall} (s : Process W)
      → IsTold config logs s
      → s.threads.main ≡ joining_sender
      → IsTold config logs (record s {
        threads = record s.threads { main = returned };
        logs = s.logs ++ (main_thread, agent_stop) ∷ [];
      })
  return-IsTold {logs} s v e = record {
    taken = v.taken;
    told =
        rw
          (
            flat_map-append said_by_sender s.logs (main_thread, agent_stop),
            append-nil (sender_logs s.logs),
          )
          v.told;
    silent = v.silent;
    main =
        flat_map-append said_by_main s.logs (main_thread, agent_stop)
        ∙ ap (λ l. l ++ agent_stop ∷ [])
            (v.main ∙ ap (λ x. logs ++ farewell x) e ∙ append-nil logs);
  }

  Act-IsTold :
      {logs : List LogCall} {s t : Process W}
      → Act config s t
      → IsTold config logs s
      → IsTold config logs t
  Act-IsTold {s} (thread st q) v = IsTold-held s _ v refl refl refl (quiet-IsHeld st q)
  Act-IsTold {s} (collect_one r m e c) v =
      IsTold-held s _ v refl refl refl
        (record { gone = refl; flight = refl; awake = λ h. h; main = refl })
  Act-IsTold {s} (collect_fails r what e c) v =
      IsTold-held s _ v refl refl refl
        (record { gone = refl; flight = refl; awake = λ h. h; main = refl })
  Act-IsTold {s} (push_one m e free) v = push-IsTold s m v
  Act-IsTold {s} (notify_one e) v = IsTold-held s _ v refl refl refl (record {
    gone = refl;
    flight = in_flight-notified s.threads.sender;
    awake = notified-entering s.threads.sender;
    main = refl;
  })
  Act-IsTold {s} (collector_logs_one call rest e) v = other-IsTold s call rest v
  Act-IsTold {s} (wake_up e q) v =
      IsTold-held s _ v refl refl refl
        (record { gone = refl; flight = refl; awake = λ h. h; main = refl })
  Act-IsTold {s} (enter e y) v =
      round-IsTold s (sender_round s.threads.should_exit s.threads.queue) v e y
  Act-IsTold {s} (send curl m e) v = delivery-IsTold curl m s v e
  Act-IsTold {s} (sender_logs_one call rest e) v = said-IsTold s call rest v e
  Act-IsTold {s} (join_sender e x) v = return-IsTold s v e

  -- In every run the sender has logged, or is about to, one event for each snapshot that it is done with, in
  -- order, which tells what became of it; and `main` what it logged before the threads, and behind them
  -- that it has ended.
  pub Run-IsTold : {logs : List LogCall} {s : Process W} → Run config logs s → IsTold config logs s
  Run-IsTold {logs} start = record {
    taken = refl;
    told = rw (said-start logs) tt;
    silent = λ h. refl;
    main = said-main logs ∙ sym (append-nil logs);
  }
  Run-IsTold (next run act) = Act-IsTold act (Run-IsTold run)
