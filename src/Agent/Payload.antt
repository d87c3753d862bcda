-- ===== src/Agent/Payload.antt =====
-- What the agent posts is JSON, unless the name of a process needs an escape.
use real_time_system_metrics.Base.{none, Option}
use real_time_system_metrics.Base.{
  ◌^◌, ◌<◌, ◌≡◌, sym, List, [], ◌∷◌, map, some, Bytes, All, All-mono, All-append_left, pos, ◌<ℤ◌,
}
use mathlib.Core.Path.{subst}
use mathlib.Core.List.{flat_map}
use real_time_system_metrics.Double.{Double, IsIeee}
use real_time_system_metrics.Double.Range.{IsWithin, IsRanged}
use real_time_system_metrics.Config.{AgentConfig}
use real_time_system_metrics.Startup.{LogCall}
use real_time_system_metrics.Processes.{ProcessMetrics}
use real_time_system_metrics.Processes.Finite.{IsFiniteMetric}
use real_time_system_metrics.Metrics.{SystemMetrics}
use real_time_system_metrics.Collector.{Readings}
use real_time_system_metrics.Collector.Laws.{IsSane, collect-IsSane}
use real_time_system_metrics.Collector.Finite.{AreNamed, IsFiniteSnapshot, collect-IsFiniteSnapshot}
use real_time_system_metrics.HttpClient.Lexer.{IsPlain, lex}
use real_time_system_metrics.HttpClient.Tokens.{snapshot_tokens, IsPrintable, IsClean, IsWritable}
use real_time_system_metrics.HttpClient.Payload.{lex-metrics_to_json}
use real_time_system_metrics.Pipeline.{Fate, dropped, taken}
use real_time_system_metrics.Pipeline.History.{snapshots, sender_took, in_flight, Reach-IsAccounted}
use real_time_system_metrics.Agent.{Process, Run}
use real_time_system_metrics.HttpClient.Send.{Transfer}
use real_time_system_metrics.Agent.Told.{snapshot_in}
use real_time_system_metrics.Agent.Logs.{Run-IsTold}
use real_time_system_metrics.Agent.Refines.{Run-Reach}
use real_time_system_metrics.Agent.Served.{requested, request, Comes, AreRead, Run-IsServed}

-- Readings of /proc from which every name of a process can be written in JSON as it is.
pub record IsReadable (r : Readings) : Type 0 where
  pub page_size : r.end_fs.page_size <ℤ pos (2 ^ 64)
  pub names : AreNamed IsPlain r.end_fs

took-All :
    {M : Type 0} (P : M → Type 0) (gone : List (Fate × M))
    → All P (snapshots gone)
    → All P (sender_took gone)
took-All P [] h = tt
took-All P ((dropped, m) ∷ gone) (p, h) = took-All P gone h
took-All P ((taken, m) ∷ gone) (p, h) = (p, took-All P gone h)

module _ (W : Type 0) ⦃d : Double W⦄ where
  -- A body that is the JSON object of a sane snapshot.
  abbrev pub IsPayload : AgentConfig → Bytes → Type 0
  IsPayload config body =
      (m : SystemMetrics W) × IsSane config.selection m × (lex body ≡ some (snapshot_tokens m))

module _ {W : Type 0} ⦃d : Double W⦄ where
  module _ (laws : IsIeee W) (ranged : IsRanged W)
      (prints : (x : W) → IsWithin (2 ^ 128) x → IsPrintable x) where
    IsFiniteMetric-IsClean : (p : ProcessMetrics W) → IsFiniteMetric IsPlain p → IsClean p
    IsFiniteMetric-IsClean p f = (
      f.name,
      prints p.cpu_percent f.cpu_percent,
      prints p.memory_mb f.memory_mb,
      prints p.io_read_mb f.io_read_mb,
      prints p.io_write_mb f.io_write_mb,
    )

    IsFiniteSnapshot-IsWritable : (m : SystemMetrics W) → IsFiniteSnapshot IsPlain m → IsWritable m
    IsFiniteSnapshot-IsWritable m f = record {
      total_cpu_percent = prints m.total_cpu_percent f.total;
      per_core_cpu_percent = All-mono _ _ m.per_core_cpu_percent prints f.cores;
      system_memory_total_mb = prints m.system_memory_total_mb f.memory_total;
      system_memory_used_mb = prints m.system_memory_used_mb f.memory_used;
      top_processes = All-mono _ _ m.top_processes IsFiniteMetric-IsClean f.processes;
    }

    Comes-IsPayload :
        (config : AgentConfig) (m : SystemMetrics W)
        → Comes IsReadable config m
        → IsPayload W config (request config m).1
    Comes-IsPayload config m (r, statics, readable, e) = (
      m,
      collect-IsSane laws config.selection r statics e,
      lex-metrics_to_json m (
          IsFiniteSnapshot-IsWritable m (
            collect-IsFiniteSnapshot laws ranged IsPlain config.selection r statics
              readable.page_size readable.names e)),
    )

    requested-AllPayloads :
        (config : AgentConfig) (ds : List (SystemMetrics W × Option Transfer))
        → All (Comes IsReadable config) (map snapshot_in ds)
        → All (λ r. IsPayload W config r.1) (flat_map (requested config) ds)
    unfolding flat_map
    requested-AllPayloads config [] h = tt
    requested-AllPayloads config ((m, none) ∷ ds) (c, h) = requested-AllPayloads config ds h
    requested-AllPayloads config ((m, some t) ∷ ds) (c, h) =
        (Comes-IsPayload config m c, requested-AllPayloads config ds h)

    -- In every run of the agent with a capacity above 0: if no page size that was read is 2^64 or more and
    -- no name of a process needs an escape, then the body of every request to libcurl is, for a JSON
    -- reader, the object of a sane snapshot. Doubles are as in IEEE 754, and `prints` says that
    -- a number from 0 to 2^128 is printed with digits and a point, not as `inf` or `nan`.
    pub Run-IsPayload :
        {config : AgentConfig} {logs : List LogCall} {s : Process W}
        → 0 < config.queue_capacity
        → (run : Run config logs s) → AreRead IsReadable run
        → All (λ r. IsPayload W config r.1) s.requests
    Run-IsPayload {config} {s = s} room run readable =
        let served = Run-IsServed run readable in
        let account = Reach-IsAccounted room (Run-Reach run) in
        let comes = subst (All (Comes IsReadable config)) (sym account.in_order) served.collected in
        let took = took-All (Comes IsReadable config) s.threads.gone (
          All-append_left (Comes IsReadable config) (snapshots s.threads.gone) s.threads.queue
            comes) in
        let dealt =
          All-append_left (Comes IsReadable config) (map snapshot_in s.deliveries)
            (in_flight s.threads.sender)
            (subst (All (Comes IsReadable config)) (sym (Run-IsTold run).taken) took) in
        subst (All (λ r. IsPayload W config r.1)) (sym served.requests)
          (requested-AllPayloads config s.deliveries dealt)
