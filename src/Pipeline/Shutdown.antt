-- ===== src/Pipeline/Shutdown.antt =====
-- What is left when the threads end.
use real_time_system_metrics.Base.{
  ℕ, ◌+◌, ◌≤◌, ◌<◌, ◌≡◌, ◌≢◌, sym, ap, refl, ◌⊎◌, inr, ◌∙◌, append-nil, Bool, true, false, List, [],
  ◌∷◌, ◌++◌, arith, length,
}
use real_time_system_metrics.Config.{AgentConfig}
use real_time_system_metrics.Pipeline.{
  Collector, collecting, pushing, leaving, ended, entering, blocked, done, polling, joining_sender,
  returned, System, after_round, Step, signal, go_on, stop, collect, collect_throws, push_one,
  notify_one, wake_up, leave, enter, block, wake_spuriously, send, see_exit, notify_all,
  join_collector, join_sender, Reach, start, next,
}
use real_time_system_metrics.Pipeline.History.{snapshots, sender_took, in_flight, Reach-IsAccounted}
use real_time_system_metrics.Pipeline.Queue.{push-le_suc, push_of_empty, sender_round}

module _ {M : Type 0} where
  -- A collection that was begun and not yet pushed.
  abbrev pub pending : Collector M → ℕ
  pending collecting = 1
  pending (pushing m) = 1
  pending _ = 0

-- Behind the end of the sender `should_exit` is set, and at most the snapshot of a collection that was
-- under way is in the queue or comes to it; `main` passes its joins in order.
pub record IsOrderly {M : Type 0} (s : System M) : Type 0 where
  pub exit_seen : s.sender ≡ done → s.should_exit ≡ true
  pub left_over : s.sender ≡ done → length s.queue + pending s.collector ≤ 1
  pub collector_left : (s.collector ≡ leaving) ⊎ (s.collector ≡ ended) → s.should_exit ≡ true
  pub main_left : s.main ≢ polling → s.should_exit ≡ true
  pub joined : (s.main ≡ joining_sender) ⊎ (s.main ≡ returned) → s.collector ≡ ended
  pub joined_sender : s.main ≡ returned → s.sender ≡ done

-- A state in which `main` waits for the sender, the sender waits for a notification, and nobody is
-- left to send one.
pub record IsHung {M : Type 0} (s : System M) : Type 0 where
  pub main_waits : s.main ≡ joining_sender
  pub collector_gone : s.collector ≡ ended
  pub sender_waits : s.sender ≡ blocked

module _ {M : Type 0} where
  after_round-IsOrderly :
      (s : System M) (b : Bool) (queue : List M)
      → s.sender ≡ entering
      → s.should_exit ≡ b
      → s.queue ≡ queue
      → IsOrderly s
      → IsOrderly (after_round s (sender_round b queue))
  unfolding sender_round
  after_round-IsOrderly s true [] e x q v = ground (arith, q)
  after_round-IsOrderly s false [] e x q v = ground arith
  after_round-IsOrderly s true (m ∷ queue) e x q v = ground arith
  after_round-IsOrderly s false (m ∷ queue) e x q v = ground arith

module _ {M : Type 0} {config : AgentConfig} where
  Step-IsOrderly : {s t : System M} → Step config s t → IsOrderly s → IsOrderly t
  Step-IsOrderly {s} signal v = ground arith
  Step-IsOrderly {s} (go_on e x) v = ground arith
  Step-IsOrderly {s} (stop e x) v = ground arith
  Step-IsOrderly {s} (collect m e) v = ground arith
  Step-IsOrderly {s} (collect_throws e) v = ground arith
  Step-IsOrderly {s} (push_one m e free) v =
      ground (arith, push-le_suc {0} config.queue_capacity m s.queue)
  Step-IsOrderly {s} (notify_one e) v = ground arith
  Step-IsOrderly {s} (wake_up e) v = ground arith
  Step-IsOrderly {s} (leave e) v = ground arith
  Step-IsOrderly {s} (enter e) v = after_round-IsOrderly s s.should_exit s.queue e refl refl v
  Step-IsOrderly {s} (block e) v = ground arith
  Step-IsOrderly {s} (wake_spuriously e) v = ground arith
  Step-IsOrderly {s} (send m e) v = ground arith
  Step-IsOrderly {s} (see_exit e x) v = ground arith
  Step-IsOrderly {s} (notify_all e) v = ground arith
  Step-IsOrderly {s} (join_collector e c) v = ground arith
  Step-IsOrderly {s} (join_sender e d) v = ground arith

  Reach-IsOrderly : {s : System M} → Reach config s → IsOrderly s
  Reach-IsOrderly start = ground arith
  Reach-IsOrderly (next r st) = Step-IsOrderly st (Reach-IsOrderly r)

  -- When `main` returns, the exit was asked for, both threads have ended, at most one snapshot is left in
  -- the queue, and all others were dropped by the collector or taken by the sender; with the backend
  -- enabled each one taken was handed to `send_metrics`, in the order of collection.
  pub returned-IsComplete :
      {s : System M}
      → 0 < config.queue_capacity
      → Reach config s
      → s.main ≡ returned
      → (s.should_exit ≡ true)
        × (s.collector ≡ ended)
        × (s.sender ≡ done)
        × (length s.queue ≤ 1)
        × (snapshots s.gone ++ s.queue ≡ s.collected)
        × (config.backend_enabled ≡ true → s.posted ≡ sender_took s.gone)
  returned-IsComplete {s} room r e =
      let o = Reach-IsOrderly r in
      let a = Reach-IsAccounted room r in
      let ends : s.sender ≡ done = o.joined_sender e in
      (
        o.exit_seen ends,
        o.joined (inr e),
        ends,
        omega (arith, o.left_over ends),
        a.in_order,
        λ on. sym (append-nil s.posted) ∙ ap (λ x. s.posted ++ in_flight x) (sym ends) ∙ a.sent on,
      )

  -- A snapshot can be lost at the exit: the sender finds the queue empty and ends while the collector
  -- is still in `collect()`, and what the collector then pushes is never taken.
  pub snapshot_lost :
      (m : M)
      → (s : System M) × Reach config s
        × (s.main ≡ returned)
        × (s.queue ≡ m ∷ [])
        × (s.collected ≡ m ∷ [])
        × (s.posted ≡ [])
  unfolding sender_round
  snapshot_lost m = (
    _,
    next
        (next
          (next
            (next
              (next
                (next
                  (next
                    (next
                      (next
                        (next
                          (next (next (next (next start (go_on refl refl)) signal) (enter refl))
                            (collect m refl))
                          (push_one m refl (cc)))
                        (notify_one refl))
                      (wake_up refl))
                    (stop refl refl))
                  (leave refl))
                (see_exit refl refl))
              (notify_all refl))
            (join_collector refl refl))
          (join_sender refl refl))
        signal,
    refl,
    push_of_empty config.queue_capacity m,
    refl,
    refl,
  )
