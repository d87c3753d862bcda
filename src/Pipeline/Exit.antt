-- ===== src/Pipeline/Exit.antt =====
-- How the sender and `main` end once the collector has.
use mathlib.Core.Path.{subst}
use real_time_system_metrics.Base.{◌≡◌, ◌≢◌, ◌⊎◌, inl, inr, sym, ap, refl, ◌∙◌, true, List, [], ◌∷◌}
use real_time_system_metrics.Config.{AgentConfig}
use real_time_system_metrics.Pipeline.{
  Collector, testing, collecting, pushing, notifying, sleeping, leaving, ended, Sender, entering,
  dozing, blocked, sending, done, Main, polling, waking, joining_collector, joining_sender,
  returned, System, notified, after_round, after_send, Step, signal, enter, block, send, see_exit,
  notify_all, join_collector, join_sender,
}
use real_time_system_metrics.Pipeline.Queue.{finished, popped, sender_round}
use real_time_system_metrics.Pipeline.Progress.{
  IsSpurious, Steps, stay, step, IsLost, Returns, collector_ends,
}

module _ {M : Type 0} (config : AgentConfig) where
  before :
      {s t : System M} (st : Step config s t)
      → ¬ IsSpurious st
      → Returns config t
      → Returns config s
  before st quiet r = record { end = r.end; steps = step st quiet r.steps; main = r.main }

  -- The sender with `main` waiting for it.
  from_done : (s : System M) → s.main ≡ joining_sender → s.sender ≡ done → Returns config s
  from_done s w e =
      before (join_sender w e) (λ h. h) (record { end = _; steps = stay _; main = refl })

  from_entering :
      (s : System M) (queue : List M)
      → s.should_exit ≡ true
      → s.main ≡ joining_sender
      → s.sender ≡ entering
      → s.queue ≡ queue
      → Returns config s
  unfolding sender_round
  from_entering s [] x w e q =
      let p : sender_round s.should_exit s.queue ≡ finished = rw (x, q) refl in
      before (enter e) (λ h. h)
        (subst (Returns config) (sym (ap (after_round s) p))
          (from_done (record s { sender = done }) w refl))
  from_entering s (m ∷ queue) x w e q =
      let p : sender_round s.should_exit s.queue ≡ popped m queue = rw (x, q) refl in
      let t = after_round s (popped m queue) in
      before (enter e) (λ h. h)
        (subst (Returns config) (sym (ap (after_round s) p)) (
          before (send m refl) (λ h. h)
            (from_entering (after_send config m t) queue x w refl refl)))

  from_joining_sender :
      (s : System M) (x : Sender M)
      → s.should_exit ≡ true
      → s.main ≡ joining_sender
      → s.sender ≡ x
      → x ≢ dozing
      → x ≢ blocked
      → Returns config s
  from_joining_sender s entering x w e n k = from_entering s s.queue x w e refl
  from_joining_sender s dozing x w e n k = absurd (n refl)
  from_joining_sender s blocked x w e n k = absurd (k refl)
  from_joining_sender s (sending m) x w e n k =
      before (send m e) (λ h. h) (from_entering (after_send config m s) s.queue x w refl refl)
  from_joining_sender s done x w e n k = from_done s w e

  from_joining_collector :
      (s : System M)
      → s.should_exit ≡ true
      → s.main ≡ joining_collector
      → s.collector ≡ ended
      → s.sender ≢ dozing
      → s.sender ≢ blocked
      → Returns config s
  from_joining_collector s x w c n k =
      before (join_collector w c) (λ h. h)
        (from_joining_sender (record s { main = joining_sender }) s.sender x refl refl n k)

  notified-awake : (x : Sender M) → x ≢ dozing → (notified x ≢ dozing) × (notified x ≢ blocked)
  notified-awake entering n = (cc, cc)
  notified-awake dozing n = absurd (n refl)
  notified-awake blocked n = (cc, cc)
  notified-awake (sending m) n = (cc, cc)
  notified-awake done n = (cc, cc)

  from_waking :
      (s : System M)
      → s.should_exit ≡ true
      → s.main ≡ waking
      → s.collector ≡ ended
      → s.sender ≢ dozing
      → Returns config s
  from_waking s x w c n =
      let (a, b) = notified-awake s.sender n in
      before (notify_all w) (λ h. h)
        (from_joining_collector (record s { main = joining_collector; sender = notified s.sender })
          x refl c a b)

  -- `main` with a collector that has ended, and a sender that does not wait unless `main` will wake it.
  from_main :
      (s : System M) (m : Main)
      → s.should_exit ≡ true
      → s.main ≡ m
      → s.collector ≡ ended
      → s.sender ≢ dozing
      → ((m ≡ joining_collector) ⊎ (m ≡ joining_sender) → s.sender ≢ blocked)
      → Returns config s
  from_main s polling x w c n k =
      before (see_exit w x) (λ h. h) (from_waking (record s { main = waking }) x refl c n)
  from_main s waking x w c n k = from_waking s x w c n
  from_main s joining_collector x w c n k = from_joining_collector s x w c n (k (inl refl))
  from_main s joining_sender x w c n k = from_joining_sender s s.sender x w refl n (k (inr refl))
  from_main s returned x w c n k = record { end = s; steps = stay s; main = w }

  joined-Steps : {s t u : System M} → Steps config s t → Steps config t u → Steps config s u
  joined-Steps (stay s) after = after
  joined-Steps (step st quiet steps) after = step st quiet (joined-Steps steps after)

  ended_or_not : (c : Collector M) → (c ≡ ended) ⊎ (c ≢ ended)
  ended_or_not ended = inl refl
  ended_or_not testing = inr (cc)
  ended_or_not collecting = inr (cc)
  ended_or_not (pushing m) = inr (cc)
  ended_or_not notifying = inr (cc)
  ended_or_not sleeping = inr (cc)
  ended_or_not leaving = inr (cc)

  from_exit :
      (s : System M) → s.should_exit ≡ true → s.sender ≢ dozing → ¬ IsLost s → Returns config s
  from_exit s x n h = elim (ended_or_not s.collector) [
    | inl c ↦ from_main s s.main x refl c n (λ w b. h (c, inr b, w))
    | inr c ↦
        let e = collector_ends config s s.collector x n refl c in
        let (a, b) = notified-awake s.sender n in
        let r =
          from_main e.end e.end.main e.exit refl e.collector (λ z. a (sym e.awake ∙ z))
            (λ w z. b (sym e.awake ∙ z)) in
        record { end = r.end; steps = joined-Steps e.steps r.steps; main = r.main }
  ]

  pub from_any : (s : System M) (x : Sender M) → s.sender ≡ x → ¬ IsLost s → Returns config s
  from_any s dozing e h =
      before signal (λ b. b)
        (before (block e) (λ b. b)
          (from_exit (record s { should_exit = true; sender = blocked }) refl (cc)
            (λ l. h (l.0, inl e, l.2))))
  from_any s entering e h =
      before signal (λ b. b) (from_exit (record s { should_exit = true }) refl (cc) h)
  from_any s blocked e h =
      before signal (λ b. b) (from_exit (record s { should_exit = true }) refl (cc) h)
  from_any s (sending m) e h =
      before signal (λ b. b) (from_exit (record s { should_exit = true }) refl (cc) h)
  from_any s done e h =
      before signal (λ b. b) (from_exit (record s { should_exit = true }) refl (cc) h)
