-- ===== src/Agent/Whole.antt =====
-- The agent from the start of `main` to its end.
use mathlib.Core.Path.{subst}
use mathlib.Core.List.{flat_map}
use real_time_system_metrics.Base.{
  ◌≤◌, ◌<◌, ◌≡◌, ◌∙◌, ap, sym, append-nil, false, List, [], ◌∷◌, ◌++◌, map, Option, Bytes, All,
  All-mono, length,
}
use real_time_system_metrics.Double.{Double, IsIeee}
use real_time_system_metrics.Config.{AgentConfig}
use real_time_system_metrics.Startup.{LogCall, running, start_main}
use real_time_system_metrics.Startup.Valid.{start_main-IsValid}
use real_time_system_metrics.Collector.Laws.{IsSane, collect-IsSane}
use real_time_system_metrics.Pipeline.{returned}
use real_time_system_metrics.Pipeline.History.{snapshots, sender_took, in_flight, Reach-IsAccounted}
use real_time_system_metrics.Pipeline.Shutdown.{returned-IsComplete}
use real_time_system_metrics.Agent.{Process, Run, agent_stop}
use real_time_system_metrics.Agent.Told.{snapshot_in, All2, Tells, sender_logs, main_logs, farewell}
use real_time_system_metrics.Agent.Logs.{Run-IsTold}
use real_time_system_metrics.Agent.Refines.{Run-Reach}
use real_time_system_metrics.Agent.Served.{requested, Comes, Run-IsServed, Run-AreRead}

module _ {W : Type 0} ⦃d : Double W⦄ where
  -- What a run of the agent has done when `main` returns.
  pub record IsWhole (config : AgentConfig) (logs : List LogCall) (s : Process W) : Type 0 where
    pub in_order : snapshots s.threads.gone ++ s.threads.queue ≡ s.threads.collected
    pub left : length s.threads.queue ≤ 1
    pub sane : All (IsSane config.selection) s.threads.collected
    pub dealt : map snapshot_in s.deliveries ≡ sender_took s.threads.gone
    pub sent : s.requests ≡ flat_map (requested config) s.deliveries
    pub told : All2 (Tells config) s.deliveries (sender_logs s.logs)
    pub main : main_logs s.logs ≡ logs ++ agent_stop ∷ []
    pub not_sent : config.backend_enabled ≡ false → s.requests ≡ []

  -- From `start_main` to the return, with doubles as in IEEE 754: the snapshots that were collected are each
  -- sane, and in their order they were dropped by the collector or taken by the sender, but for one at
  -- most that is left in the queue. The sender has dealt with each snapshot that it took, in that order. For
  -- each one for which `send_metrics` was called and got a handle, libcurl was asked for one request,
  -- in that order, to the configured URL and with the snapshot's JSON, and for no other; with the backend
  -- disabled for none. For each one the sender has logged one event, in that order, and the event says
  -- whether it was skipped, sent or not sent, by what libcurl did with it; and
  -- `main` has logged, behind what it logged before the threads, that it has ended.
  pub returned-IsWhole :
      (laws : IsIeee W) (backend_env config_env : Option Bytes) (args : List Bytes)
      (read_file : Bytes → Option Bytes) {config : AgentConfig} {logs : List LogCall}
      {s : Process W}
      → start_main backend_env config_env args read_file ≡ (logs, running config)
      → Run config logs s
      → s.threads.main ≡ returned
      → IsWhole config logs s
  returned-IsWhole laws backend_env config_env args read_file {config} {logs} {s} e run out =
      let room : 0 < config.queue_capacity =
        (start_main-IsValid backend_env config_env args read_file (ap (λ p. p.1) e)).capacity in
      let ends = returned-IsComplete room (Run-Reach run) out in
      let account = Reach-IsAccounted room (Run-Reach run) in
      let served = Run-IsServed run (Run-AreRead run) in
      let log = Run-IsTold run in
      record {
        in_order = account.in_order;
        left = ends.3;
        sane =
            All-mono (Comes (λ _. Unit) config) (IsSane config.selection) s.threads.collected
              (λ m (r, statics, _, c). collect-IsSane laws config.selection r statics c)
              served.collected;
        dealt =
            sym (append-nil (map snapshot_in s.deliveries))
            ∙ ap (λ x. map snapshot_in s.deliveries ++ in_flight x) (sym ends.2)
            ∙ log.taken;
        sent = served.requests;
        told =
            let said = ap (λ x. sender_logs s.logs ++ x) (log.silent (λ e. cc (e, ends.2))) in
            subst (All2 (Tells config) s.deliveries) (said ∙ append-nil (sender_logs s.logs))
              log.told;
        main = log.main ∙ ap (λ x. logs ++ farewell x) out;
        not_sent = served.not_sent;
      }
