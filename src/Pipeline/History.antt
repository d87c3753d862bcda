-- ===== src/Pipeline/History.antt =====
-- What has become of each snapshot, in every reachable state.
use real_time_system_metrics.Base.{
  ℕ, ◌≤◌, ◌<◌, ◌≡◌, ◌∙◌, sym, ap, refl, Bool, true, false, List, [], ◌∷◌, ◌++◌, append_assoc,
  append-nil, arith, length, Bool-cases, inl, inr,
}
use real_time_system_metrics.Config.{AgentConfig}
use real_time_system_metrics.Pipeline.{
  Sender, entering, blocked, sending, Fate, dropped, taken, System, notified, dropped_by, pushed,
  after_round, after_send, Step, push_one, notify_one, leave, enter, block, wake_spuriously, send,
  notify_all, Reach, start, next,
}
use real_time_system_metrics.Pipeline.Queue.{push, push-le, popped, sender_round}

module _ {M : Type 0} where
  -- The snapshots in the history, and those of them that the sender took.
  abbrev pub snapshots : List (Fate × M) → List M
  snapshots [] = []
  snapshots ((fate, m) ∷ gone) = m ∷ snapshots gone

  abbrev pub sender_took : List (Fate × M) → List M
  sender_took [] = []
  sender_took ((dropped, m) ∷ gone) = sender_took gone
  sender_took ((taken, m) ∷ gone) = m ∷ sender_took gone

  -- The snapshot that the sender has taken and not yet dealt with.
  abbrev pub in_flight : Sender M → List M
  in_flight (sending m) = m ∷ []
  in_flight _ = []

  snapshots-append : (g h : List (Fate × M)) → snapshots (g ++ h) ≡ snapshots g ++ snapshots h
  snapshots-append [] h = refl
  snapshots-append ((f, m) ∷ g) h = ap (◌∷◌ m) (snapshots-append g h)

  pub sender_took-append :
      (g h : List (Fate × M)) → sender_took (g ++ h) ≡ sender_took g ++ sender_took h
  sender_took-append [] h = refl
  sender_took-append ((dropped, m) ∷ g) h = sender_took-append g h
  sender_took-append ((taken, m) ∷ g) h = ap (◌∷◌ m) (sender_took-append g h)

  -- Dropping the oldest snapshot moves it into the history.
  push-snapshots :
      (capacity : ℕ) (m : M) (queue : List M)
      → let (queue', dropped_oldest) = push capacity m queue in
        snapshots (dropped_by dropped_oldest queue) ++ queue' ≡ queue ++ m ∷ []
  unfolding push
  push-snapshots capacity m [] = ground arith
  push-snapshots capacity m (x ∷ queue) = ground arith

  pub in_flight-notified : (s : Sender M) → in_flight (notified s) ≡ in_flight s
  in_flight-notified blocked = refl
  in_flight-notified s = refl

  pub dropped_by-took : (b : Bool) (queue : List M) → sender_took (dropped_by b queue) ≡ []
  dropped_by-took true (m ∷ queue) = refl
  dropped_by-took b queue = refl

-- Every snapshot that was collected has left the queue or stands in it, once and in the order of
-- collection; the queue is within its capacity; and of those that the sender took, all but the one in
-- its hands were handed to `send_metrics` in that order, or none if the backend is disabled.
pub record IsAccounted {M : Type 0} (config : AgentConfig) (s : System M) : Type 0 where
  pub bounded : length s.queue ≤ config.queue_capacity
  pub in_order : snapshots s.gone ++ s.queue ≡ s.collected
  pub sent : config.backend_enabled ≡ true → s.posted ++ in_flight s.sender ≡ sender_took s.gone
  pub not_sent : config.backend_enabled ≡ false → s.posted ≡ []

module _ {M : Type 0} {config : AgentConfig} (room : 0 < config.queue_capacity) where
  -- A step that changes nothing of the history.
  IsAccounted-same :
      (s t : System M)
      → IsAccounted config s
      → t.queue ≡ s.queue
      → t.gone ≡ s.gone
      → t.collected ≡ s.collected
      → t.posted ≡ s.posted
      → in_flight t.sender ≡ in_flight s.sender
      → IsAccounted config t
  IsAccounted-same s t v q g c p f = record {
    bounded = rw q v.bounded;
    in_order = rw (q, g, c) v.in_order;
    sent = λ e. rw (p, f, g) (v.sent e);
    not_sent = λ e. rw p (v.not_sent e);
  }

  pushed-IsAccounted :
      (s : System M) (m : M) → IsAccounted config s → IsAccounted config (pushed config m s)
  pushed-IsAccounted s m v = record {
    bounded = push-le config.queue_capacity m s.queue room v.bounded;
    in_order = cc (
      v.in_order,
      snapshots-append s.gone moved,
      push-snapshots config.queue_capacity m s.queue,
      append_assoc (snapshots s.gone) (snapshots moved) after.0,
      append_assoc (snapshots s.gone) s.queue (m ∷ []),
    );
    sent = λ h. cc (
      v.sent h,
      sender_took-append s.gone moved,
      dropped_by-took after.1 s.queue,
      append-nil (sender_took s.gone),
    );
    not_sent = v.not_sent;
  }
    where
      after : List M × Bool
      after = push config.queue_capacity m s.queue

      moved : List (Fate × M)
      moved = dropped_by after.1 s.queue

  popped-IsAccounted :
      (s : System M) (m : M) (rest : List M)
      → s.sender ≡ entering
      → s.queue ≡ m ∷ rest
      → IsAccounted config s
      → IsAccounted config (after_round s (popped m rest))
  popped-IsAccounted s m rest e q v = record {
    bounded = omega (arith, v.bounded, ap (length {0}) q);
    in_order = cc (
      v.in_order,
      q,
      snapshots-append s.gone ((taken, m) ∷ []),
      append_assoc (snapshots s.gone) (m ∷ []) rest,
    );
    sent = λ h. cc (
      v.sent h,
      ap in_flight e,
      append-nil s.posted,
      sender_took-append s.gone ((taken, m) ∷ []),
    );
    not_sent = v.not_sent;
  }

  after_round-IsAccounted :
      (s : System M) (b : Bool) (queue : List M)
      → s.sender ≡ entering
      → s.queue ≡ queue
      → IsAccounted config s
      → IsAccounted config (after_round s (sender_round b queue))
  unfolding sender_round
  after_round-IsAccounted s true [] e q v =
      IsAccounted-same s _ v refl refl refl refl (ap in_flight (sym e))
  after_round-IsAccounted s false [] e q v =
      IsAccounted-same s _ v refl refl refl refl (ap in_flight (sym e))
  after_round-IsAccounted s true (m ∷ rest) e q v = popped-IsAccounted s m rest e q v
  after_round-IsAccounted s false (m ∷ rest) e q v = popped-IsAccounted s m rest e q v

  after_send-IsAccounted :
      (s : System M) (m : M)
      → s.sender ≡ sending m
      → IsAccounted config s
      → IsAccounted config (after_send config m s)
  after_send-IsAccounted s m e v = elim (Bool-cases config.backend_enabled) [
    | inl on ↦ record {
      bounded = v.bounded;
      in_order = v.in_order;
      sent = λ h. rw on (append-nil (s.posted ++ m ∷ []) ∙ rw e at (v.sent h));
      not_sent = λ off. cc;
    }
    | inr off ↦ record {
      bounded = v.bounded;
      in_order = v.in_order;
      sent = λ h. cc;
      not_sent = λ _. rw off (v.not_sent off);
    }
  ]

  Step-IsAccounted :
      {s t : System M} → Step config s t → IsAccounted config s → IsAccounted config t
  Step-IsAccounted {s} (push_one m e free) v = pushed-IsAccounted s m v
  Step-IsAccounted {s} (notify_one e) v =
      IsAccounted-same s _ v refl refl refl refl (in_flight-notified s.sender)
  Step-IsAccounted {s} (leave e) v =
      IsAccounted-same s _ v refl refl refl refl (in_flight-notified s.sender)
  Step-IsAccounted {s} (notify_all e) v =
      IsAccounted-same s _ v refl refl refl refl (in_flight-notified s.sender)
  Step-IsAccounted {s} (enter e) v = after_round-IsAccounted s s.should_exit s.queue e refl v
  Step-IsAccounted {s} (block e) v =
      IsAccounted-same s _ v refl refl refl refl (ap in_flight (sym e))
  Step-IsAccounted {s} (wake_spuriously e) v =
      IsAccounted-same s _ v refl refl refl refl (ap in_flight (sym e))
  Step-IsAccounted {s} (send m e) v = after_send-IsAccounted s m e v
  Step-IsAccounted {s} st v = IsAccounted-same s _ v refl refl refl refl refl

  -- With a capacity above 0, in every reachable state the queue holds at most the capacity; what has left
  -- it and then what is in it are the collected snapshots in order; and what was handed to
  -- `send_metrics`, with the one under way, is what the sender took if the backend is enabled, and
  -- nothing was handed over if it is not.
  pub Reach-IsAccounted : {s : System M} → Reach config s → IsAccounted config s
  Reach-IsAccounted start = record {
    bounded = omega arith;
    in_order = refl;
    sent = λ _. refl;
    not_sent = λ _. refl;
  }
  Reach-IsAccounted (next r st) = Step-IsAccounted st (Reach-IsAccounted r)
