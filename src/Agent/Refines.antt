-- ===== src/Agent/Refines.antt =====
-- The process is a run of the pipeline.
use mathlib.Core.Path.{subst}
use real_time_system_metrics.Base.{◌≡◌, ◌⊎◌, inl, inr, sym, refl, List}
use real_time_system_metrics.Double.{Double}
use real_time_system_metrics.Config.{AgentConfig}
use real_time_system_metrics.Startup.{LogCall}
use real_time_system_metrics.Pipeline.{Step, Reach}
use real_time_system_metrics.Pipeline
use real_time_system_metrics.Agent.{
  Process, Act, thread, collect_one, collect_fails, push_one, notify_one, collector_logs_one,
  wake_up, enter, send, sender_logs_one, join_sender, Run, start, next,
}

module _ {W : Type 0} ⦃d : Double W⦄ {config : AgentConfig} where
  Act-Step :
      {s t : Process W} → Act config s t → (t.threads ≡ s.threads) ⊎ Step config s.threads t.threads
  Act-Step (thread st quiet) = inr st
  Act-Step (collect_one r m e c) = inr (Pipeline.collect m e)
  Act-Step (collect_fails r what e c) = inr (Pipeline.collect_throws e)
  Act-Step (push_one m e free) = inr (Pipeline.push_one m e free)
  Act-Step (notify_one e) = inr (Pipeline.notify_one e)
  Act-Step (collector_logs_one call rest e) = inl refl
  Act-Step (wake_up e q) = inr (Pipeline.wake_up e)
  Act-Step (enter e q) = inr (Pipeline.enter e)
  Act-Step (send curl m e) = inr (Pipeline.send m e)
  Act-Step (sender_logs_one call rest e) = inl refl
  Act-Step (join_sender e x) = inr (Pipeline.join_sender e x)

  -- The threads of every run of the process are in a reachable state of the pipeline.
  pub Run-Reach : {logs : List LogCall} {s : Process W} → Run config logs s → Reach config s.threads
  Run-Reach start = Pipeline.start
  Run-Reach (next {s} {t} run act) = elim (Act-Step act) [
    | inl e ↦ subst (Reach config) (sym e) (Run-Reach run)
    | inr st ↦ Pipeline.next (Run-Reach run) st
  ]
