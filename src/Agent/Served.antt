-- ===== src/Agent/Served.antt =====
-- What the process has asked of libcurl, and where its snapshots come from.
use mathlib.Core.Path.{subst}
use mathlib.Core.List.{flat_map}
use real_time_system_metrics.Base.{
  ◌≡◌, ◌∙◌, sym, ap, refl, List, [], ◌∷◌, ◌++◌, append-nil, Option, none, some, flat_map-append,
  false, Bytes, codes, All, All-append,
}
use real_time_system_metrics.Double.{Double}
use real_time_system_metrics.Config.{AgentConfig}
use real_time_system_metrics.Startup.{LogCall}
use real_time_system_metrics.Metrics.{SystemMetrics}
use real_time_system_metrics.Collector.{Readings, Statics, collect}
use real_time_system_metrics.HttpClient.{metrics_to_json}
use real_time_system_metrics.HttpClient.Send.{Client, Transfer}
use real_time_system_metrics.Pipeline.{
  System, Step, signal, go_on, stop, leave, block, wake_spuriously, see_exit, notify_all,
  join_collector, pushing, after_round,
}
use real_time_system_metrics.Pipeline.Queue.{
  Round, would_block, finished, again, popped, sender_round,
}
use real_time_system_metrics.Pipeline.Sending.{deliver-IsDelivered}
use real_time_system_metrics.Agent.{
  Process, IsQuiet, answered, asked, after_delivery, Act, thread, collect_one, collect_fails,
  push_one, notify_one, collector_logs_one, wake_up, enter, send, sender_logs_one, join_sender, Run,
  start, next,
}

module _ {W : Type 0} ⦃d : Double W⦄ where
  -- The request that a snapshot is sent by.
  abbrev pub request : AgentConfig → SystemMetrics W → Bytes × Bytes
  request config m = (config.backend_url ++ codes "/ingest/metrics", metrics_to_json m)

  -- The request for a snapshot with which libcurl did something.
  abbrev pub requested : AgentConfig → SystemMetrics W × Option Transfer → List (Bytes × Bytes)
  requested config (m, none) = []
  requested config (m, some transfer) = request config m ∷ []

  -- A snapshot that a call of `collect` has returned, from readings with the property.
  abbrev pub Comes : (Readings → Type 0) → AgentConfig → SystemMetrics W → Type 0
  Comes Q config m =
      (r : Readings) × (statics : Statics) × Q r × ((collect config.selection r statics).0 ≡ some m)

  pub record IsServed (Q : Readings → Type 0) (config : AgentConfig) (s : Process W) : Type 0 where
    pub url : s.client.backend_url ≡ config.backend_url
    pub requests : s.requests ≡ flat_map (requested config) s.deliveries
    pub not_sent : config.backend_enabled ≡ false → s.requests ≡ []
    pub collected : All (Comes Q config) s.threads.collected
    pub coming : (m : SystemMetrics W) → s.threads.collector ≡ pushing m → Comes Q config m

  asked-requested :
      (config : AgentConfig) (c : Client) (m : SystemMetrics W) (outcome : Option Transfer)
      → c.backend_url ≡ config.backend_url
      → asked c m outcome ≡ requested config (m, outcome)
  asked-requested config c m none e = refl
  asked-requested config c m (some t) e =
      ap (λ u. (u ++ codes "/ingest/metrics", metrics_to_json m) ∷ []) e

  -- A step of a thread that calls nothing leaves the history, and begins no push.
  record IsSame (s t : System (SystemMetrics W)) : Type 0 where
    pub collected : t.collected ≡ s.collected
    pub coming : (m : SystemMetrics W) → t.collector ≡ pushing m → s.collector ≡ pushing m

  round-IsSame :
      (s : System (SystemMetrics W)) (r : Round (SystemMetrics W)) → IsSame s (after_round s r)
  round-IsSame s would_block = record { collected = refl; coming = λ m e. e }
  round-IsSame s finished = record { collected = refl; coming = λ m e. e }
  round-IsSame s again = record { collected = refl; coming = λ m e. e }
  round-IsSame s (popped m rest) = record { collected = refl; coming = λ m e. e }

module _ {W : Type 0} ⦃d : Double W⦄ {config : AgentConfig} (Q : Readings → Type 0) where
  -- The readings of the calls of `collect` that returned a snapshot have the property.
  abbrev pub IsReadOf : {s t : Process W} → Act config s t → Type 0
  IsReadOf (collect_one r m e c) = Q r
  IsReadOf _ = Unit

  abbrev pub AreRead : {logs : List LogCall} {s : Process W} → Run config logs s → Type 0
  AreRead start = Unit
  AreRead (next run act) = AreRead run × IsReadOf act

module _ {W : Type 0} ⦃d : Double W⦄ {config : AgentConfig} where
  quiet-IsSame : {s t : System (SystemMetrics W)} (st : Step config s t) → IsQuiet st → IsSame s t
  quiet-IsSame signal q = record { collected = refl; coming = λ m e. e }
  quiet-IsSame (go_on e x) q = record { collected = refl; coming = λ m e. cc e }
  quiet-IsSame (stop e x) q = record { collected = refl; coming = λ m e. cc e }
  quiet-IsSame (leave e) q = record { collected = refl; coming = λ m e. cc e }
  quiet-IsSame (block e) q = record { collected = refl; coming = λ m e. e }
  quiet-IsSame (wake_spuriously e) q = record { collected = refl; coming = λ m e. e }
  quiet-IsSame (see_exit e x) q = record { collected = refl; coming = λ m e. e }
  quiet-IsSame (notify_all e) q = record { collected = refl; coming = λ m e. e }
  quiet-IsSame (join_collector e c) q = record { collected = refl; coming = λ m e. e }
  quiet-IsSame _ q = absurd q

module _ {W : Type 0} ⦃d : Double W⦄ {config : AgentConfig} {Q : Readings → Type 0} where
  -- A step that keeps what `IsServed` reads.
  IsServed-same :
      (s t : Process W)
      → IsServed Q config s
      → t.client ≡ s.client
      → t.requests ≡ s.requests
      → t.deliveries ≡ s.deliveries
      → IsSame s.threads t.threads
      → IsServed Q config t
  IsServed-same s t v c r k same = record {
    url = ap (λ (c : Client). c.backend_url) c ∙ v.url;
    requests = r ∙ v.requests ∙ ap (flat_map (requested config)) (sym k);
    not_sent = λ off. r ∙ v.not_sent off;
    collected = subst (All (Comes Q config)) (sym same.collected) v.collected;
    coming = λ m e. v.coming m (same.coming m e);
  }

  after_delivery-IsServed :
      (curl : Bytes → Bytes → Option Transfer) (m : SystemMetrics W) (s : Process W)
      → IsServed Q config s
      → IsServed Q config (after_delivery config curl m s)
  after_delivery-IsServed curl m s v = record {
    url = (deliver-IsDelivered config curl m s.client).url ∙ v.url;
    requests =
        ap (λ r. s.requests ++ r) (asked-requested config s.client m outcome v.url)
        ∙ ap (λ r. r ++ requested config (m, outcome)) v.requests
        ∙ sym (flat_map-append (requested config) s.deliveries (m, outcome));
    not_sent = λ off. rw off (append-nil s.requests ∙ v.not_sent off);
    collected = v.collected;
    coming = v.coming;
  }
    where
      outcome : Option Transfer
      outcome = answered config curl s.client m

  Act-IsServed :
      {s t : Process W} (act : Act config s t)
      → IsReadOf Q act
      → IsServed Q config s
      → IsServed Q config t
  Act-IsServed {s} (thread {t} st q) _ v = IsServed-same s _ v refl refl refl (quiet-IsSame st q)
  Act-IsServed {s} (collect_one r m e c) h v = record {
    url = v.url;
    requests = v.requests;
    not_sent = v.not_sent;
    collected = v.collected;
    coming = λ x p. let q : m ≡ x = cc p in (r, s.statics, h, c ∙ ap some q);
  }
  Act-IsServed {s} (collect_fails r what e c) _ v =
      IsServed-same s _ v refl refl refl (record { collected = refl; coming = λ m e. cc e })
  Act-IsServed {s} (push_one m e free) _ v = record {
    url = v.url;
    requests = v.requests;
    not_sent = v.not_sent;
    collected =
        All-append (Comes Q config) s.threads.collected (m ∷ []) v.collected (v.coming m e, tt);
    coming = λ m e. cc e;
  }
  Act-IsServed {s} (notify_one e) _ v =
      IsServed-same s _ v refl refl refl (record { collected = refl; coming = λ m e. cc e })
  Act-IsServed {s} (collector_logs_one call rest e) _ v =
      IsServed-same s _ v refl refl refl (record { collected = refl; coming = λ m e. e })
  Act-IsServed {s} (wake_up e q) _ v =
      IsServed-same s _ v refl refl refl (record { collected = refl; coming = λ m e. cc e })
  Act-IsServed {s} (enter e q) _ v =
      IsServed-same s _ v refl refl refl
        (round-IsSame s.threads (sender_round s.threads.should_exit s.threads.queue))
  Act-IsServed {s} (send curl m e) _ v = after_delivery-IsServed curl m s v
  Act-IsServed {s} (sender_logs_one call rest e) _ v =
      IsServed-same s _ v refl refl refl (record { collected = refl; coming = λ m e. e })
  Act-IsServed {s} (join_sender e x) _ v =
      IsServed-same s _ v refl refl refl (record { collected = refl; coming = λ m e. e })

  -- In every run, what libcurl was asked is one request for each snapshot for which `send_metrics` had a
  -- handle, in order: to the configured URL, with the snapshot's JSON; nothing with the backend disabled; and each snapshot that was collected or is about to be
  -- pushed is what a call of `collect` returned from its readings.
  pub Run-IsServed :
      {logs : List LogCall} {s : Process W} (run : Run config logs s)
      → AreRead Q run
      → IsServed Q config s
  unfolding flat_map
  Run-IsServed start h = record {
    url = refl;
    requests = refl;
    not_sent = λ off. refl;
    collected = tt;
    coming = λ m e. cc e;
  }
  Run-IsServed (next run act) (h, k) = Act-IsServed act k (Run-IsServed run h)

module _ {W : Type 0} ⦃d : Double W⦄ {config : AgentConfig} where
  Act-IsReadOf : {s t : Process W} (act : Act config s t) → IsReadOf (λ _. Unit) act
  Act-IsReadOf (collect_one r m e c) = tt
  Act-IsReadOf _ = tt

  pub Run-AreRead :
      {logs : List LogCall} {s : Process W} (run : Run config logs s) → AreRead (λ _. Unit) run
  Run-AreRead start = tt
  Run-AreRead (next run act) = (Run-AreRead run, Act-IsReadOf act)
