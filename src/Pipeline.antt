-- ===== src/Pipeline.antt =====
-- agent/src/main.cpp: the signal handler, the collector thread, the sender thread and the wait of `main`
-- for both, interleaved in any order. A step is what one thread does with the mutex held, or one
-- access to `should_exit` or to the condition variable. `M` is the type of a snapshot.
pub mod Queue
pub mod History
pub mod Shutdown
pub mod Exit
pub mod Progress
pub mod Liveness
pub mod Sending
pub mod Tests
use real_time_system_metrics.Base.{
  ℕ, Bool, true, false, not, List, [], ◌∷◌, ◌++◌, ◌≡◌, ◌≢◌, map, Option, none, some, if◌then◌else◌,
}
use real_time_system_metrics.Config.{AgentConfig}
use Queue.{push, Round, would_block, finished, again, popped, sender_round}

-- Where the collector thread stands.
pub data Collector (M : Type 0) : Type 0 where
  testing : Collector M  -- `while (!should_exit)`
  collecting : Collector M  -- in `collect()`
  pushing : M → Collector M  -- before its critical section
  notifying : Collector M  -- before `notify_one`
  sleeping : Collector M
  leaving : Collector M  -- before its `notify_all`
  ended : Collector M

-- Where the sender thread stands.
pub data Sender (M : Type 0) : Type 0 where
  entering : Sender M  -- before it takes the mutex, at the head of the loop or when it is woken
  dozing : Sender M  -- the predicate was false; it still holds the mutex
  blocked : Sender M  -- in `wait`, without the mutex
  sending : M → Sender M
  done : Sender M

-- Where `main` stands.
pub data Main : Type 0 where
  polling waking joining_collector joining_sender returned : Main

-- How a snapshot left the queue.
pub data Fate : Type 0 where
  dropped taken : Fate

-- `collected`, `gone` and `posted` record what has happened: the snapshots pushed, those that have
-- left the queue with how they left it, and those handed to `send_metrics`.
pub record System (M : Type 0) : Type 0 where
  pub queue : List M
  pub should_exit : Bool
  pub collector : Collector M
  pub sender : Sender M
  pub main : Main
  pub collected : List M
  pub gone : List (Fate × M)
  pub posted : List M

abbrev pub initial : (M : Type 0) → System M
initial M = record {
  queue = [];
  should_exit = false;
  collector = testing;
  sender = entering;
  main = polling;
  collected = [];
  gone = [];
  posted = [];
}

module _ {M : Type 0} where
  -- A notification wakes a sender that is blocked, and is lost on any other.
  abbrev pub notified : Sender M → Sender M
  notified blocked = entering
  notified s = s

  -- What a push adds to the history: the snapshot that it drops, if any.
  abbrev pub dropped_by : Bool → List M → List (Fate × M)
  dropped_by true (m ∷ queue) = (dropped, m) ∷ []
  dropped_by _ _ = []

  -- The critical section of the collector.
  abbrev pub pushed : AgentConfig → M → System M → System M
  pushed config m s =
      let (queue', dropped_oldest) = push config.queue_capacity m s.queue in
      record s {
        queue = queue';
        collector = notifying;
        collected = s.collected ++ m ∷ [];
        gone = s.gone ++ dropped_by dropped_oldest s.queue;
      }

  -- The critical section of the sender, by what its code decides.
  abbrev pub after_round : System M → Round M → System M
  after_round s would_block = record s { sender = dozing }
  after_round s finished = record s { sender = done }
  after_round s again = record s { sender = entering }
  after_round s (popped m rest) = record s {
    queue = rest;
    sender = sending m;
    gone = s.gone ++ (taken, m) ∷ [];
  }

  -- The rest of the sender's round: `send_metrics` is called only if the backend is enabled.
  abbrev pub after_send : AgentConfig → M → System M → System M
  after_send config m s = record s {
    sender = entering;
    posted = if config.backend_enabled then s.posted ++ m ∷ [] else s.posted;
  }

-- One step of the process.
pub data Step {M : Type 0} (config : AgentConfig) (s : System M) : System M → Type 0 where
  signal : Step config s (record s { should_exit = true })
  -- the collector
  go_on :
      s.collector ≡ testing
      → s.should_exit ≡ false
      → Step config s (record s { collector = collecting })
  stop :
      s.collector ≡ testing
      → s.should_exit ≡ true
      → Step config s (record s { collector = leaving })
  collect : (m : M) → s.collector ≡ collecting → Step config s (record s { collector = pushing m })
  collect_throws : s.collector ≡ collecting → Step config s (record s { collector = sleeping })
  push_one :
      (m : M) → s.collector ≡ pushing m → s.sender ≢ dozing → Step config s (pushed config m s)
  notify_one :
      s.collector ≡ notifying
      → Step config s (record s { collector = sleeping; sender = notified s.sender })
  wake_up : s.collector ≡ sleeping → Step config s (record s { collector = testing })
  leave :
      s.collector ≡ leaving
      → Step config s (record s { collector = ended; sender = notified s.sender })
  -- the sender
  enter : s.sender ≡ entering → Step config s (after_round s (sender_round s.should_exit s.queue))
  block : s.sender ≡ dozing → Step config s (record s { sender = blocked })
  wake_spuriously : s.sender ≡ blocked → Step config s (record s { sender = entering })
  send : (m : M) → s.sender ≡ sending m → Step config s (after_send config m s)
  -- `main`
  see_exit : s.main ≡ polling → s.should_exit ≡ true → Step config s (record s { main = waking })
  notify_all :
      s.main ≡ waking
      → Step config s (record s { main = joining_collector; sender = notified s.sender })
  join_collector :
      s.main ≡ joining_collector
      → s.collector ≡ ended
      → Step config s (record s { main = joining_sender })
  join_sender :
      s.main ≡ joining_sender → s.sender ≡ done → Step config s (record s { main = returned })

pub data Reach {M : Type 0} (config : AgentConfig) : System M → Type 0 where
  start : Reach config (initial M)
  next : {s t : System M} → Reach config s → Step config s t → Reach config t
