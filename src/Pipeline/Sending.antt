-- ===== src/Pipeline/Sending.antt =====
-- agent/src/main.cpp: what the two threads log, and what the sender does with a snapshot that it took.
use real_time_system_metrics.Base.{
  ℕ, ◌≡◌, ◌≢◌, refl, ap, ◌∙◌, bytes_lt, not, Bool, true, false, List, [], ◌∷◌, ◌++◌, Option, Bytes,
  codes, bytes_eq, if◌then◌else◌, Bool-cases, inl, inr,
}
use real_time_system_metrics.Double.{Double}
use real_time_system_metrics.CppStd.Numbers.{to_string, int_to_string}
use real_time_system_metrics.Logger.Fields.{map_of, insert_field}
use real_time_system_metrics.Config.{AgentConfig}
use real_time_system_metrics.Startup.{LogCall}
use real_time_system_metrics.Metrics.{SystemMetrics}
use real_time_system_metrics.HttpClient.{metrics_to_json}
use real_time_system_metrics.HttpClient.Send.{
  Client, Transfer, url_of, send_metrics, IsAccepted, code_of, IsReported, send_metrics-IsReported,
}

-- What the collector logs behind its critical section.
unfoldable pub collector_logs : AgentConfig → Bool → ℕ → List LogCall
collector_logs config dropped_oldest queue_size =
    (if dropped_oldest
      then record {
        level = codes "WARN";
        event = codes "collector.queue_overflow";
        message = codes "Dropped oldest metrics snapshot";
        fields = (codes "queue_capacity", to_string config.queue_capacity) ∷ [];
      }
        ∷ []
      else [])
    ++ record {
      level = codes "INFO";
      event = codes "collector.snapshot";
      message = codes "Collected metrics snapshot";
      fields = (codes "queue_size", to_string queue_size) ∷ [];
    }
      ∷ []

-- What it logs if an exception ends its round.
unfoldable pub collector_error : Bytes → LogCall
collector_error what = record {
  level = codes "ERROR";
  event = codes "collector.error";
  message = codes "Collector failed";
  fields = (codes "error", what) ∷ [];
}

abbrev pub status_field : Client → Bytes × Bytes
status_field client = (codes "http_status", int_to_string client.last_status_code)

module _ {W : Type 0} where
  abbrev pub timestamp_field : SystemMetrics W → Bytes × Bytes
  timestamp_field metrics = (codes "timestamp", int_to_string metrics.timestamp)

  unfoldable pub log_skipped : SystemMetrics W → LogCall
  log_skipped metrics = record {
    level = codes "INFO";
    event = codes "sender.skipped";
    message = codes "Backend disabled; metrics not sent";
    fields = timestamp_field metrics ∷ [];
  }

  -- Behind `send_metrics`, by its result and the client that it leaves.
  unfoldable pub log_result : SystemMetrics W → Bool → Client → LogCall
  unfolding map_of
  log_result metrics true client = record {
    level = codes "INFO";
    event = codes "sender.sent";
    message = codes "Sent metrics to backend";
    fields = map_of (timestamp_field metrics ∷ status_field client ∷ []) [];
  }
  log_result metrics false client = record {
    level = codes "ERROR";
    event = codes "sender.failed";
    message = codes "Failed to send metrics";
    fields =
        map_of
          (timestamp_field metrics
            ∷ (codes "error", client.last_error_message)
            ∷ status_field client
            ∷ [])
          [];
  }

module _ {W : Type 0} ⦃d : Double W⦄ where
  -- The sender's round behind its critical section: what it logs, and the client behind it.
  unfoldable pub deliver :
      AgentConfig → (Bytes → Bytes → Option Transfer) → SystemMetrics W → Client → LogCall × Client
  unfolding log_skipped log_result
  deliver config curl metrics client =
      if not config.backend_enabled
      then (log_skipped metrics, client)
      else let (sent, client') = send_metrics curl metrics client in
        (log_result metrics sent client', client')

  -- What is logged of one snapshot, by what became of it.
  pub record IsDelivered (config : AgentConfig) (c : Client) (outcome : Option Transfer)
      (metrics : SystemMetrics W) (call : LogCall) (c' : Client) : Type 0 where
    pub url : c'.backend_url ≡ c.backend_url
    pub skipped :
        config.backend_enabled ≡ false
        → (call.level ≡ codes "INFO")
          × (call.event ≡ codes "sender.skipped")
          × (call.fields ≡ timestamp_field metrics ∷ [])
          × (c' ≡ c)
    pub sent :
        config.backend_enabled ≡ true
        → IsAccepted outcome
        → (call.level ≡ codes "INFO")
          × (call.event ≡ codes "sender.sent")
          × (call.fields
              ≡ (codes "http_status", int_to_string (code_of outcome))
                ∷ timestamp_field metrics
                ∷ [])
    pub failed :
        config.backend_enabled ≡ true
        → ¬ IsAccepted outcome
        → (call.level ≡ codes "ERROR")
          × (call.event ≡ codes "sender.failed")
          × (c'.last_error_message ≢ [])
          × (call.fields
              ≡ (codes "error", c'.last_error_message)
                ∷ (codes "http_status", int_to_string (code_of outcome))
                ∷ timestamp_field metrics
                ∷ [])

  log_result-sent :
      (metrics : SystemMetrics W) (c : Client)
      → (log_result metrics true c).fields ≡ status_field c ∷ timestamp_field metrics ∷ []
  unfolding log_result map_of insert_field bytes_eq bytes_lt
  log_result-sent metrics c = refl

  log_result-failed :
      (metrics : SystemMetrics W) (c : Client)
      → (log_result metrics false c).fields
        ≡ (codes "error", c.last_error_message) ∷ status_field c ∷ timestamp_field metrics ∷ []
  unfolding log_result map_of insert_field bytes_eq bytes_lt
  log_result-failed metrics c = refl

  delivered_lem :
      (config : AgentConfig) (metrics : SystemMetrics W) (c c' : Client) (outcome : Option Transfer)
      (sent : Bool)
      → config.backend_enabled ≡ true
      → IsReported c outcome sent c'
      → IsDelivered config c outcome metrics (log_result metrics sent c') c'
  unfolding log_result
  delivered_lem config metrics c c' outcome true on r = record {
    url = r.url;
    skipped = λ off. absurd (cc (on, off));
    sent = λ _ ok. (
      refl,
      refl,
      log_result-sent metrics c'
          ∙ ap (λ z. (codes "http_status", int_to_string z) ∷ timestamp_field metrics ∷ [])
              r.status,
    );
    failed = λ _ bad. absurd (bad (r.sent_iff.0 refl));
  }
  delivered_lem config metrics c c' outcome false on r = record {
    url = r.url;
    skipped = λ off. absurd (cc (on, off));
    sent = λ _ ok. absurd (cc (r.sent_iff.1 ok));
    failed = λ _ bad. (
      refl,
      refl,
      λ e. absurd (cc (r.error_iff.0 e)),
      log_result-failed metrics c'
          ∙ ap
              (λ z.
                (codes "error", c'.last_error_message)
                ∷ (codes "http_status", int_to_string z)
                ∷ timestamp_field metrics
                ∷ [])
              r.status,
    );
  }

  -- For each snapshot that the sender takes, it logs one event: with the backend disabled that it was
  -- skipped, and the client stays as it was; otherwise, at level INFO if the transfer worked and the code
  -- is from 200 to 299, that it was sent, with the code; and else at level ERROR that it failed, with a
  -- message that is not empty and the code, 0 without a response. The backend's URL stays.
  pub deliver-IsDelivered :
      (config : AgentConfig) (curl : Bytes → Bytes → Option Transfer) (metrics : SystemMetrics W)
      (c : Client)
      → let r = deliver config curl metrics c in
        IsDelivered config c (curl (url_of c) (metrics_to_json metrics)) metrics r.0 r.1
  unfolding deliver
  deliver-IsDelivered config curl metrics c = elim (Bool-cases config.backend_enabled) [
    | inl on ↦
        simp on (delivered_lem config metrics c _ _ _ on (send_metrics-IsReported curl metrics c))
    | inr off ↦ simp off (record {
      url = refl;
      skipped = λ _. (refl, refl, refl, refl);
      sent = λ on. absurd (cc (on, off));
      failed = λ on. absurd (cc (on, off));
    })
  ]
