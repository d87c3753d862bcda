-- ===== src/Agent/Turns.antt =====
-- What the steps that log nothing keep of the accounts of the logs.
use real_time_system_metrics.Base.{◌≡◌, ◌∙◌, sym, ap, refl, List, [], ◌∷◌, ◌++◌, append-nil, map}
use real_time_system_metrics.Double.{Double}
use real_time_system_metrics.Config.{AgentConfig}
use real_time_system_metrics.Startup.{LogCall}
use real_time_system_metrics.Metrics.{SystemMetrics}
use real_time_system_metrics.Pipeline.{
  Sender, entering, dozing, done, System, dropped_by, after_round, taken, Step, signal, go_on, stop,
  leave, block, wake_spuriously, see_exit, notify_all, join_collector,
}
use real_time_system_metrics.Pipeline.Queue.{push, Round, would_block, finished, again, popped}
use real_time_system_metrics.Pipeline.History.{
  sender_took, in_flight, sender_took-append, in_flight-notified, dropped_by-took,
}
use real_time_system_metrics.Agent.{Process, IsQuiet, after_push}
use real_time_system_metrics.Agent.Told.{
  snapshot_in, main_logs, farewell, IsTold, IsHeld, notified-entering,
}

module _ {W : Type 0} ⦃d : Double W⦄ {config : AgentConfig} where
  pub quiet-IsHeld :
      {s t : System (SystemMetrics W)} (st : Step config s t) → IsQuiet st → IsHeld s t
  quiet-IsHeld signal q = record { gone = refl; flight = refl; awake = λ h. h; main = refl }
  quiet-IsHeld (go_on e x) q = record { gone = refl; flight = refl; awake = λ h. h; main = refl }
  quiet-IsHeld (stop e x) q = record { gone = refl; flight = refl; awake = λ h. h; main = refl }
  quiet-IsHeld {s} (leave e) q = record {
    gone = refl;
    flight = in_flight-notified s.sender;
    awake = notified-entering s.sender;
    main = refl;
  }
  quiet-IsHeld (block e) q = record {
    gone = refl;
    flight = ap in_flight (sym e);
    awake = λ h x. cc (e, x);
    main = refl;
  }
  quiet-IsHeld (wake_spuriously e) q = record {
    gone = refl;
    flight = ap in_flight (sym e);
    awake = λ h x. h refl;
    main = refl;
  }
  quiet-IsHeld (see_exit e x) q = record {
    gone = refl;
    flight = refl;
    awake = λ h. h;
    main = ap farewell (sym e);
  }
  quiet-IsHeld {s} (notify_all e) q = record {
    gone = refl;
    flight = in_flight-notified s.sender;
    awake = notified-entering s.sender;
    main = ap farewell (sym e);
  }
  quiet-IsHeld (join_collector e c) q = record {
    gone = refl;
    flight = refl;
    awake = λ h. h;
    main = ap farewell (sym e);
  }
  quiet-IsHeld _ q = absurd q

  pub IsTold-held :
      {logs : List LogCall} (s t : Process W)
      → IsTold config logs s
      → t.logs ≡ s.logs
      → t.sender_says ≡ s.sender_says
      → t.deliveries ≡ s.deliveries
      → IsHeld s.threads t.threads
      → IsTold config logs t
  IsTold-held {logs} s t v l y k held = record {
    taken =
        ap (λ ds. map snapshot_in ds ++ in_flight t.threads.sender) k
        ∙ ap (λ f. map snapshot_in s.deliveries ++ f) held.flight
        ∙ v.taken
        ∙ sym held.gone;
    told = rw (l, y, k) v.told;
    silent = λ h. y ∙ v.silent (held.awake h);
    main = ap main_logs l ∙ v.main ∙ ap (λ f. logs ++ f) (sym held.main);
  }

  -- The sender goes on without a snapshot.
  idle-IsTold :
      {logs : List LogCall} (s : Process W) (x : Sender (SystemMetrics W))
      → IsTold config logs s
      → s.threads.sender ≡ entering
      → s.sender_says ≡ []
      → in_flight x ≡ []
      → IsTold config logs (record s { threads = record s.threads { sender = x } })
  idle-IsTold s x v e y none_held = record {
    taken =
        ap (λ f. map snapshot_in s.deliveries ++ f) (none_held ∙ ap in_flight (sym e)) ∙ v.taken;
    told = v.told;
    silent = λ h. y;
    main = v.main;
  }

  -- The critical section of the sender, which has said all before it.
  pub round-IsTold :
      {logs : List LogCall} (s : Process W) (r : Round (SystemMetrics W))
      → IsTold config logs s
      → s.threads.sender ≡ entering
      → s.sender_says ≡ []
      → IsTold config logs (record s { threads = after_round s.threads r })
  round-IsTold s (popped m rest) v e y = record {
    taken = cc (
      v.taken,
      ap in_flight e,
      append-nil (map snapshot_in s.deliveries),
      sender_took-append s.threads.gone ((taken, m) ∷ []),
    );
    told = v.told;
    silent = λ h. y;
    main = v.main;
  }
  round-IsTold s would_block v e y = idle-IsTold s dozing v e y refl
  round-IsTold s finished v e y = idle-IsTold s done v e y refl
  round-IsTold s again v e y = idle-IsTold s entering v e y refl

  pub push-IsTold :
      {logs : List LogCall} (s : Process W) (m : SystemMetrics W)
      → IsTold config logs s
      → IsTold config logs (after_push config m s)
  push-IsTold s m v =
      let (queue, dropped_oldest) = push config.queue_capacity m s.threads.queue in
      IsTold-held s _ v refl refl refl (record {
        gone =
            sender_took-append s.threads.gone (dropped_by dropped_oldest s.threads.queue)
            ∙ ap (λ g. sender_took s.threads.gone ++ g)
                (dropped_by-took dropped_oldest s.threads.queue)
            ∙ append-nil (sender_took s.threads.gone);
        flight = refl;
        awake = λ h. h;
        main = refl;
      })
