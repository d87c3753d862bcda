-- ===== src/HttpClient/RoundTrip.antt =====
-- The reader of a whole payload, and what it gets back from the one of a snapshot.
use real_time_system_metrics.Base.{
  ◌≡◌, refl, ap, ◌∙◌, List, [], ◌∷◌, ◌++◌, map, Option, none, some, Bytes, bytes_eq, codes, All,
  All-each, All-mono, ℤ,
}
use real_time_system_metrics.Double.{Double}
use real_time_system_metrics.CppStd.Numbers.{stoll}
use real_time_system_metrics.CppStd.Printing.{IsIn, stoll-int_to_string}
use real_time_system_metrics.Processes.{ProcessMetrics}
use real_time_system_metrics.Metrics.{SystemMetrics}
use real_time_system_metrics.HttpClient.{metrics_to_json}
use real_time_system_metrics.HttpClient.Lexer.{Token, punct, lex}
use real_time_system_metrics.HttpClient.Tokens.{
  elements, array, members, process_tokens, decimal, snapshot_tokens, IsWritable,
}
use real_time_system_metrics.HttpClient.Payload.{lex-metrics_to_json}
use real_time_system_metrics.HttpClient.Reader.{
  Reader, ◌>>=◌, ◌>>◌, found, required, take_punct, take_key, take_number, read_process,
  process_texts, AreInts, read_process-process_tokens, read_array, read_array-array,
}

-- Behind the processes, behind the cores, and from the start.
abbrev read_end : SystemMetrics Bytes → List (ProcessMetrics Bytes) → Reader (SystemMetrics Bytes)
read_end m top_processes = do take_punct b'}'; found (record m { top_processes = top_processes })

unfoldable read_rest : ℤ → Bytes → List Bytes → Reader (SystemMetrics Bytes)
unfolding read_array read_process bytes_eq
read_rest timestamp total_cpu_percent per_core_cpu_percent = do
  take_punct b','
  take_key (codes "system_memory_total_mb")
  system_memory_total_mb ← take_number
  take_punct b','
  take_key (codes "system_memory_used_mb")
  system_memory_used_mb ← take_number
  take_punct b','
  take_key (codes "top_processes")
  read_array read_process
      >>= read_end (record {
        timestamp = timestamp;
        total_cpu_percent = total_cpu_percent;
        per_core_cpu_percent = per_core_cpu_percent;
        system_memory_total_mb = system_memory_total_mb;
        system_memory_used_mb = system_memory_used_mb;
        top_processes = [];
      })

unfoldable read_snapshot : Reader (SystemMetrics Bytes)
unfolding read_array read_rest bytes_eq
read_snapshot = do
  take_punct b'{'
  take_key (codes "timestamp")
  timestamp_text ← take_number
  timestamp ← required (stoll timestamp_text)
  take_punct b','
  take_key (codes "total_cpu_percent")
  total_cpu_percent ← take_number
  take_punct b','
  take_key (codes "per_core_cpu_percent")
  read_array take_number >>= read_rest timestamp total_cpu_percent

-- A payload with nothing behind the snapshot.
unfoldable pub read_payload : Bytes → Option (SystemMetrics Bytes)
unfolding lex read_snapshot
read_payload json = elim (lex json) [
  | none ↦ none
  | some tokens ↦ elim (read_snapshot tokens) [
    | none ↦ none
    | some (snapshot, []) ↦ some snapshot
    | some (snapshot, (_ ∷ _)) ↦ none
  ]
]

found_by :
    {A B : Type 0} (m : Reader A) (f : A → Reader B) (ts : List Token) {rest : List Token} {a : A}
    → m ts ≡ some (a, rest)
    → (m >>= f) ts ≡ f a rest
found_by m f ts e = ap (λ r. elim r [ none ↦ none | some (a, rest) ↦ f a rest ]) e

module _ {W : Type 0} ⦃d : Double W⦄ where
  -- A snapshot with the texts of its doubles.
  abbrev pub texts : SystemMetrics W → SystemMetrics Bytes
  texts m = record {
    timestamp = m.timestamp;
    total_cpu_percent = d.fixed_2 m.total_cpu_percent;
    per_core_cpu_percent = map d.fixed_2 m.per_core_cpu_percent;
    system_memory_total_mb = d.fixed_2 m.system_memory_total_mb;
    system_memory_used_mb = d.fixed_2 m.system_memory_used_mb;
    top_processes = map process_texts m.top_processes;
  }

  read_array-decimals :
      (xs : List W) (rest : List Token)
      → read_array take_number (punct b'[' ∷ (elements (map decimal xs) ++ rest))
        ≡ some (map d.fixed_2 xs, rest)
  read_array-decimals xs rest =
      read_array-array take_number decimal d.fixed_2 xs rest (λ x ts. refl)
        (All-each _ xs (λ x ts. refl))

  read_array-processes :
      (ps : List (ProcessMetrics W)) (rest : List Token)
      → All AreInts ps
      → read_array read_process (punct b'[' ∷ (elements (map process_tokens ps) ++ rest))
        ≡ some (map process_texts ps, rest)
  read_array-processes ps rest h =
      read_array-array read_process process_tokens process_texts ps rest (λ p ts. refl)
        (All-mono AreInts _ ps (λ p i ts. read_process-process_tokens p ts i) h)

  read_snapshot-snapshot_tokens :
      (m : SystemMetrics W)
      → IsIn 64 m.timestamp
      → All AreInts m.top_processes
      → read_snapshot (snapshot_tokens m) ≡ some (texts m, [])
  unfolding read_snapshot read_rest bytes_eq
  read_snapshot-snapshot_tokens m time ints =
      let processes = array (map process_tokens m.top_processes) in
      let rest =
        punct b','
        ∷ members (
            (codes "system_memory_total_mb", decimal m.system_memory_total_mb)
            ∷ (codes "system_memory_used_mb", decimal m.system_memory_used_mb)
            ∷ (codes "top_processes", processes)
            ∷ []) in
      rw (stoll-int_to_string m.timestamp time) (
        found_by (read_array take_number) (read_rest m.timestamp (d.fixed_2 m.total_cpu_percent))
          (array (map decimal m.per_core_cpu_percent) ++ rest)
          (read_array-decimals m.per_core_cpu_percent rest)
        ∙ found_by (read_array read_process) (read_end (record (texts m) { top_processes = [] }))
            (processes ++ punct b'}' ∷ [])
            (read_array-processes m.top_processes (punct b'}' ∷ []) ints))

  -- From the payload of a snapshot all of it is read back: the timestamp and the integers of the processes
  -- by value, the names, and the doubles as the two digits of their fractions show them. This is so if no
  -- number is infinite or NaN, no name needs an escape, and the integers are in the range of their types.
  pub read_payload-metrics_to_json :
      (m : SystemMetrics W)
      → IsWritable m
      → IsIn 64 m.timestamp
      → All AreInts m.top_processes
      → read_payload (metrics_to_json m) ≡ some (texts m)
  unfolding read_payload
  read_payload-metrics_to_json m h time ints =
      rw (read_payload, lex-metrics_to_json m h)
        (rw (read_snapshot-snapshot_tokens m time ints) refl)
