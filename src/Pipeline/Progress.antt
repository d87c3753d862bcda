-- ===== src/Pipeline/Progress.antt =====
-- Runs without spurious wake-ups, and how the collector ends in one.
use real_time_system_metrics.Base.{◌≡◌, ◌≢◌, ◌⊎◌, refl, ◌∙◌, true}
use real_time_system_metrics.Config.{AgentConfig}
use real_time_system_metrics.Pipeline.{
  Collector, testing, collecting, pushing, notifying, sleeping, leaving, ended, Sender, entering,
  dozing, blocked, sending, done, joining_collector, joining_sender, returned, System, notified,
  pushed, Step, stop, collect_throws, push_one, notify_one, wake_up, leave, wake_spuriously,
}

module _ {M : Type 0} {config : AgentConfig} where
  abbrev pub IsSpurious : {s t : System M} → Step config s t → Type 0
  IsSpurious (wake_spuriously e) = Unit
  IsSpurious _ = ⊥

-- Some steps, none of them a spurious wake-up.
pub data Steps {M : Type 0} (config : AgentConfig) : System M → System M → Type 0 where
  stay : (s : System M) → Steps config s s
  step :
      {s t u : System M} (st : Step config s t)
      → ¬ IsSpurious st
      → Steps config t u
      → Steps config s u

-- Nobody is left to notify the sender, which waits or is about to, and `main` waits for both threads.
abbrev pub IsLost : {M : Type 0} → System M → Type 0
IsLost s =
    (s.collector ≡ ended)
    × ((s.sender ≡ dozing) ⊎ (s.sender ≡ blocked))
    × ((s.main ≡ joining_collector) ⊎ (s.main ≡ joining_sender))

module _ {M : Type 0} (config : AgentConfig) where
  -- The collector has ended, and its last notification has woken the sender.
  pub record CollectorEnds (s : System M) : Type 0 where
    pub end : System M
    pub steps : Steps config s end
    pub exit : end.should_exit ≡ true
    pub collector : end.collector ≡ ended
    pub main : end.main ≡ s.main
    pub awake : end.sender ≡ notified s.sender

  -- `main` has returned.
  pub record Returns (s : System M) : Type 0 where
    pub end : System M
    pub steps : Steps config s end
    pub main : end.main ≡ returned

  before_collector :
      {s t : System M} (st : Step config s t)
      → ¬ IsSpurious st
      → t.main ≡ s.main
      → notified t.sender ≡ notified s.sender
      → CollectorEnds t
      → CollectorEnds s
  before_collector st quiet m a c = record {
    end = c.end;
    steps = step st quiet c.steps;
    exit = c.exit;
    collector = c.collector;
    main = c.main ∙ m;
    awake = c.awake ∙ a;
  }

  notified_idem : (x : Sender M) → notified (notified x) ≡ notified x
  notified_idem blocked = refl
  notified_idem entering = refl
  notified_idem dozing = refl
  notified_idem (sending m) = refl
  notified_idem done = refl

  from_leaving : (s : System M) → s.should_exit ≡ true → s.collector ≡ leaving → CollectorEnds s
  from_leaving s x e = record {
    end = _;
    steps = step (leave e) (λ h. h) (stay _);
    exit = x;
    collector = refl;
    main = refl;
    awake = refl;
  }

  from_testing : (s : System M) → s.should_exit ≡ true → s.collector ≡ testing → CollectorEnds s
  from_testing s x e =
      before_collector (stop e x) (λ h. h) refl refl
        (from_leaving (record s { collector = leaving }) x refl)

  from_sleeping : (s : System M) → s.should_exit ≡ true → s.collector ≡ sleeping → CollectorEnds s
  from_sleeping s x e =
      before_collector (wake_up e) (λ h. h) refl refl
        (from_testing (record s { collector = testing }) x refl)

  from_notifying : (s : System M) → s.should_exit ≡ true → s.collector ≡ notifying → CollectorEnds s
  from_notifying s x e =
      before_collector (notify_one e) (λ h. h) refl (notified_idem s.sender)
        (from_sleeping (record s { collector = sleeping; sender = notified s.sender }) x refl)

  from_pushing :
      (s : System M) (m : M)
      → s.should_exit ≡ true
      → s.sender ≢ dozing
      → s.collector ≡ pushing m
      → CollectorEnds s
  from_pushing s m x free e =
      before_collector (push_one m e free) (λ h. h) refl refl
        (from_notifying (pushed config m s) x refl)

  from_collecting :
      (s : System M) → s.should_exit ≡ true → s.collector ≡ collecting → CollectorEnds s
  from_collecting s x e =
      before_collector (collect_throws e) (λ h. h) refl refl
        (from_sleeping (record s { collector = sleeping }) x refl)

  -- From anywhere but its end.
  pub collector_ends :
      (s : System M) (c : Collector M)
      → s.should_exit ≡ true
      → s.sender ≢ dozing
      → s.collector ≡ c
      → c ≢ ended
      → CollectorEnds s
  collector_ends s testing x free e n = from_testing s x e
  collector_ends s collecting x free e n = from_collecting s x e
  collector_ends s (pushing m) x free e n = from_pushing s m x free e
  collector_ends s notifying x free e n = from_notifying s x e
  collector_ends s sleeping x free e n = from_sleeping s x e
  collector_ends s leaving x free e n = from_leaving s x e
  collector_ends s ended x free e n = absurd (n refl)
