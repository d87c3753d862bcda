-- ===== src/Agent/Told.antt =====
-- Who has logged what, and what the log tells of each snapshot.
use mathlib.Core.List.{flat_map}
use real_time_system_metrics.Base.{◌≡◌, ◌≢◌, ap, refl, List, [], ◌∷◌, ◌++◌, Option, map}
use real_time_system_metrics.Double.{Double}
use real_time_system_metrics.Config.{AgentConfig}
use real_time_system_metrics.Startup.{LogCall}
use real_time_system_metrics.Metrics.{SystemMetrics}
use real_time_system_metrics.HttpClient.Send.{Client, Transfer}
use real_time_system_metrics.Pipeline.{
  Main, returned, Sender, entering, dozing, blocked, sending, done, System, notified,
}
use real_time_system_metrics.Pipeline.History.{sender_took, in_flight}
use real_time_system_metrics.Pipeline.Sending.{IsDelivered}
use real_time_system_metrics.Agent.{
  Process, Speaker, main_thread, sender_thread, spoken, agent_stop,
}

-- What one of the threads has logged.
abbrev pub said_by_sender : Speaker × LogCall → List LogCall
said_by_sender (sender_thread, call) = call ∷ []
said_by_sender _ = []

abbrev pub said_by_main : Speaker × LogCall → List LogCall
said_by_main (main_thread, call) = call ∷ []
said_by_main _ = []

abbrev pub sender_logs : List (Speaker × LogCall) → List LogCall
sender_logs = flat_map said_by_sender

abbrev pub main_logs : List (Speaker × LogCall) → List LogCall
main_logs = flat_map said_by_main

pub said-start : (logs : List LogCall) → sender_logs (spoken main_thread logs) ≡ []
unfolding flat_map
said-start [] = refl
said-start (call ∷ logs) = said-start logs

pub said-main : (logs : List LogCall) → main_logs (spoken main_thread logs) ≡ logs
unfolding flat_map
said-main [] = refl
said-main (call ∷ logs) = ap (◌∷◌ call) (said-main logs)

-- Two lists, element by element.
abbrev pub All2 : {A B : Type 0} → (A → B → Type 0) → List A → List B → Type 0
All2 R [] [] = Unit
All2 R (x ∷ xs) (y ∷ ys) = R x y × All2 R xs ys
All2 R _ _ = ⊥

pub All2-append :
    {A B : Type 0} (R : A → B → Type 0) (xs : List A) (ys : List B) (x : A) (y : B)
    → All2 R xs ys
    → R x y
    → All2 R (xs ++ x ∷ []) (ys ++ y ∷ [])
All2-append R [] [] x y h r = (r, tt)
All2-append R (a ∷ xs) (b ∷ ys) x y (p, h) r = (p, All2-append R xs ys x y h r)
All2-append R [] (b ∷ ys) x y h r = absurd h
All2-append R (a ∷ xs) [] x y h r = absurd h

-- What `main` logs at its end.
abbrev pub farewell : Main → List LogCall
farewell returned = agent_stop ∷ []
farewell _ = []

module _ {W : Type 0} ⦃d : Double W⦄ where
  -- A log call that tells what became of a snapshot, by what libcurl did with it.
  abbrev pub Tells : AgentConfig → SystemMetrics W × Option Transfer → LogCall → Type 0
  Tells config (m, outcome) call =
      (before : Client) × (after : Client) × IsDelivered config before outcome m call after

  abbrev pub snapshot_in : SystemMetrics W × Option Transfer → SystemMetrics W
  snapshot_in (m, outcome) = m

  pub record IsTold (config : AgentConfig) (logs : List LogCall) (s : Process W) : Type 0 where
    pub taken :
        map snapshot_in s.deliveries ++ in_flight s.threads.sender ≡ sender_took s.threads.gone
    pub told : All2 (Tells config) s.deliveries (sender_logs s.logs ++ s.sender_says)
    pub silent : s.threads.sender ≢ entering → s.sender_says ≡ []
    pub main : main_logs s.logs ≡ logs ++ farewell s.threads.main

  -- A step of the threads that the sender's accounts do not see.
  pub record IsHeld (s t : System (SystemMetrics W)) : Type 0 where
    pub gone : sender_took t.gone ≡ sender_took s.gone
    pub flight : in_flight t.sender ≡ in_flight s.sender
    pub awake : t.sender ≢ entering → s.sender ≢ entering
    pub main : farewell t.main ≡ farewell s.main

  pub notified-entering : (x : Sender (SystemMetrics W)) → notified x ≢ entering → x ≢ entering
  notified-entering blocked h = λ e. cc e
  notified-entering entering h = h
  notified-entering dozing h = h
  notified-entering (sending m) h = h
  notified-entering done h = h
