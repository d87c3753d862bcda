-- ===== src/Collector/Memory.antt =====
-- agent/src/metrics_collector.cpp: `get_system_memory` on Linux.
use real_time_system_metrics.Base.{
  ℕ, zero, suc, ◌+◌, Option, none, some, Bytes, codes, bytes_eq, if◌then◌else◌, length,
}
use real_time_system_metrics.Double.{Double, max_value}
use real_time_system_metrics.CppStd.Stream.{Stream, stream_of, read_word, read_u64}

-- `mem_total_kb` and `mem_available_kb`
abbrev pub MemoryKb : Type 0
MemoryKb = ℕ × ℕ

abbrev pub store_memory : Bytes → ℕ → MemoryKb → MemoryKb
store_memory key value (mem_total_kb, mem_available_kb) =
    if bytes_eq key (codes "MemTotal:")
    then (value, mem_available_kb)
    else if bytes_eq key (codes "MemAvailable:")
    then (mem_total_kb, value)
    else (mem_total_kb, mem_available_kb)

-- `while (meminfo_file >> key >> value >> unit)`, on fuel: a round takes at least one byte.
unfoldable pub meminfo_loop : ℕ → Stream → MemoryKb → MemoryKb
meminfo_loop zero s kb = kb
meminfo_loop (suc fuel) s kb =
    let (word, s₁) = read_word s in
    elim word [
      | none ↦ kb
      | some key ↦
          let (value, s₂) = read_u64 0 s₁ in
          let (unit, s₃) = read_word s₂ in
          elim unit [ none ↦ kb | some _ ↦ meminfo_loop fuel s₃ (store_memory key value kb) ]
    ]

module _ {W : Type 0} ⦃d : Double W⦄ where
  unfoldable pub memory_mb : MemoryKb → W × W
  memory_mb (mem_total_kb, mem_available_kb) =
      let total_mb = d.div (d.of_nat mem_total_kb) (d.of_nat 1024) in
      let available_mb = d.div (d.of_nat mem_available_kb) (d.of_nat 1024) in
      (total_mb, max_value (d.of_nat 0) (d.sub total_mb available_mb))

  -- The total and the used memory.
  unfoldable pub get_system_memory : Option Bytes → W × W
  unfolding memory_mb meminfo_loop
  get_system_memory none = (d.of_nat 0, d.of_nat 0)
  get_system_memory (some text) = memory_mb (meminfo_loop (length text + 1) (stream_of text) (0, 0))
