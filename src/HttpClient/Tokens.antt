-- ===== src/HttpClient/Tokens.antt =====
-- The tokens that stand for a snapshot as a JSON object.
use real_time_system_metrics.Base.{List, [], ◌∷◌, ◌++◌, map, Bytes, codes, All, ℤ}
use real_time_system_metrics.Double.{Double}
use real_time_system_metrics.CppStd.Numbers.{int_to_string}
use real_time_system_metrics.Processes.{ProcessMetrics}
use real_time_system_metrics.Metrics.{SystemMetrics}
use real_time_system_metrics.HttpClient.Lexer.{Token, punct, text, number, IsNumeral, IsPlain}

-- The tokens of an array and of an object, from those of their values.
abbrev pub elements : List (List Token) → List Token
elements [] = punct b']' ∷ []
elements (v ∷ []) = v ++ punct b']' ∷ []
elements (v ∷ w ∷ vs) = v ++ punct b',' ∷ elements (w ∷ vs)

abbrev pub array : List (List Token) → List Token
array vs = punct b'[' ∷ elements vs

abbrev pub members : List (Bytes × List Token) → List Token
members [] = punct b'}' ∷ []
members ((key, v) ∷ []) = text key ∷ punct b':' ∷ v ++ punct b'}' ∷ []
members ((key, v) ∷ f ∷ fs) = text key ∷ punct b':' ∷ v ++ punct b',' ∷ members (f ∷ fs)

abbrev pub object : List (Bytes × List Token) → List Token
object fields = punct b'{' ∷ members fields

abbrev pub integer : ℤ → List Token
integer z = number (int_to_string z) ∷ []

-- A member whose value is a number, with its comma.
abbrev pub number_tokens : Bytes → Bytes → List Token
number_tokens key x = text key ∷ punct b':' ∷ number x ∷ punct b',' ∷ []

module _ {W : Type 0} ⦃d : Double W⦄ where
  abbrev pub decimal : W → List Token
  decimal x = number (d.fixed_2 x) ∷ []

  abbrev pub process_tokens : ProcessMetrics W → List Token
  process_tokens p = object (
      (codes "pid", integer p.pid)
      ∷ (codes "name", text p.name ∷ [])
      ∷ (codes "cpu_percent", decimal p.cpu_percent)
      ∷ (codes "memory_mb", decimal p.memory_mb)
      ∷ (codes "thread_count", integer p.thread_count)
      ∷ (codes "io_read_mb", decimal p.io_read_mb)
      ∷ (codes "io_write_mb", decimal p.io_write_mb)
      ∷ (codes "handle_count", integer p.handle_count)
      ∷ [])

  -- The snapshot as a JSON object.
  abbrev pub snapshot_tokens : SystemMetrics W → List Token
  snapshot_tokens m = object (
      (codes "timestamp", integer m.timestamp)
      ∷ (codes "total_cpu_percent", decimal m.total_cpu_percent)
      ∷ (codes "per_core_cpu_percent", array (map decimal m.per_core_cpu_percent))
      ∷ (codes "system_memory_total_mb", decimal m.system_memory_total_mb)
      ∷ (codes "system_memory_used_mb", decimal m.system_memory_used_mb)
      ∷ (codes "top_processes", array (map process_tokens m.top_processes))
      ∷ [])

  -- A double that is written as a number of JSON, so neither `nan` nor `inf`.
  abbrev pub IsPrintable : W → Type 0
  IsPrintable x = IsNumeral (d.fixed_2 x)

  abbrev pub IsClean : ProcessMetrics W → Type 0
  IsClean p =
      IsPlain p.name
      × IsPrintable p.cpu_percent
      × IsPrintable p.memory_mb
      × IsPrintable p.io_read_mb
      × IsPrintable p.io_write_mb

  -- No number of the snapshot is infinite or NaN, and no name of a process needs an escape.
  pub record IsWritable (m : SystemMetrics W) : Type 0 where
    pub total_cpu_percent : IsPrintable m.total_cpu_percent
    pub per_core_cpu_percent : All IsPrintable m.per_core_cpu_percent
    pub system_memory_total_mb : IsPrintable m.system_memory_total_mb
    pub system_memory_used_mb : IsPrintable m.system_memory_used_mb
    pub top_processes : All IsClean m.top_processes
