-- ===== src/Pipeline/Liveness.antt =====
-- When the process can still end without a spurious wake-up, and a run after which it cannot.
use real_time_system_metrics.Base.{◌≡◌, ◌≢◌, ◌↔◌, refl, true, arith}
use real_time_system_metrics.Config.{AgentConfig}
use real_time_system_metrics.Pipeline.{
  returned, System, Step, signal, go_on, stop, collect, collect_throws, push_one, notify_one,
  wake_up, leave, enter, block, wake_spuriously, send, see_exit, notify_all, join_collector,
  join_sender, Reach, start, next,
}
use real_time_system_metrics.Pipeline.Progress.{IsSpurious, Steps, stay, step, IsLost, Returns}
use real_time_system_metrics.Pipeline.Queue.{sender_round}
use real_time_system_metrics.Pipeline.Shutdown.{IsHung}
use real_time_system_metrics.Pipeline.Exit.{from_any}

IsLost_lem : {M : Type 0} (s : System M) → IsLost s → s.main ≢ returned
IsLost_lem s h = λ e. ground (arith, h, e)

module _ {M : Type 0} {config : AgentConfig} where
  IsLost-Step : {s t : System M} (st : Step config s t) → ¬ IsSpurious st → IsLost s → IsLost t
  IsLost-Step signal q h = ground arith
  IsLost-Step (go_on e x) q h = ground arith
  IsLost-Step (stop e x) q h = ground arith
  IsLost-Step (collect m e) q h = ground arith
  IsLost-Step (collect_throws e) q h = ground arith
  IsLost-Step (push_one m e free) q h = ground arith
  IsLost-Step (notify_one e) q h = ground arith
  IsLost-Step (wake_up e) q h = ground arith
  IsLost-Step (leave e) q h = ground arith
  IsLost-Step (enter e) q h = ground arith
  IsLost-Step (block e) q h = ground arith
  IsLost-Step (wake_spuriously e) q h = absurd (q tt)
  IsLost-Step (send m e) q h = ground arith
  IsLost-Step (see_exit e x) q h = ground arith
  IsLost-Step (notify_all e) q h = ground arith
  IsLost-Step (join_collector e c) q h = ground arith
  IsLost-Step (join_sender e d) q h = ground arith

  IsLost-Steps : {s t : System M} → Steps config s t → IsLost s → IsLost t
  IsLost-Steps (stay s) h = h
  IsLost-Steps (step st quiet steps) h = IsLost-Steps steps (IsLost-Step st quiet h)

  -- From any state, `main` can still return by steps of which none is a spurious wake-up, exactly if it
  -- is not so that the collector has ended, the sender waits or is about to, and `main` has notified and
  -- waits for the threads: that is the one way in which the process can hang.
  pub Returns-IsLost : (s : System M) → Returns config s ↔ ¬ IsLost s
  Returns-IsLost s =
      (λ r h. IsLost_lem r.end (IsLost-Steps r.steps h) r.main, from_any config s s.sender refl)

  IsHung-Step : {s t : System M} (st : Step config s t) → ¬ IsSpurious st → IsHung s → IsHung t
  IsHung-Step signal q h = ground arith
  IsHung-Step (go_on e x) q h = ground arith
  IsHung-Step (stop e x) q h = ground arith
  IsHung-Step (collect m e) q h = ground arith
  IsHung-Step (collect_throws e) q h = ground arith
  IsHung-Step (push_one m e free) q h = ground arith
  IsHung-Step (notify_one e) q h = ground arith
  IsHung-Step (wake_up e) q h = ground arith
  IsHung-Step (leave e) q h = ground arith
  IsHung-Step (enter e) q h = ground arith
  IsHung-Step (block e) q h = ground arith
  IsHung-Step (wake_spuriously e) q h = absurd (q tt)
  IsHung-Step (send m e) q h = ground arith
  IsHung-Step (see_exit e x) q h = ground arith
  IsHung-Step (notify_all e) q h = ground arith
  IsHung-Step (join_collector e c) q h = ground arith
  IsHung-Step (join_sender e d) q h = ground arith

  IsHung-Steps : {s t : System M} → Steps config s t → IsHung s → IsHung t
  IsHung-Steps (stay s) h = h
  IsHung-Steps (step st quiet steps) h = IsHung-Steps steps (IsHung-Step st quiet h)

  -- The process can hang at the exit: a state is reached in which `should_exit` is set, `main` waits for
  -- the sender, the sender waits for a notification and the collector has ended; and whatever steps follow,
  -- as long as none of them is a spurious wake-up, each state that they lead to is such a state again.
  pub lost_wake_up :
      (s : System M) × Reach config s
      × IsHung s
      × (s.should_exit ≡ true)
      × ((t : System M) → Steps config s t → IsHung t)
  unfolding sender_round
  lost_wake_up = (
    _,
    next
        (next
          (next
            (next
              (next (next (next (next start (enter refl)) signal) (see_exit refl refl))
                (notify_all refl))
              (stop refl refl))
            (leave refl))
          (join_collector refl refl))
        (block refl),
    record { main_waits = refl; collector_gone = refl; sender_waits = refl },
    refl,
    λ t steps.
        IsHung-Steps steps
          (record { main_waits = refl; collector_gone = refl; sender_waits = refl }),
  )
