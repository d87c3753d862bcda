-- ===== src/Proc/Files.antt =====
-- agent/src/metrics_collector.cpp: `read_linux_process_status_fields` and `read_linux_process_io`.
use real_time_system_metrics.Base.{
  ℕ, zero, suc, ◌+◌, ◌-◌, ◌^◌, true, false, List, [], ◌∷◌, Option, none, some, Bytes, codes,
  bytes_eq, if◌then◌else◌, length, take, drop, ℤ, pos, ltb_ℤ, leb_ℤ,
}
use real_time_system_metrics.Double.{Double}
use real_time_system_metrics.CppStd.Getline.{getlines}
use real_time_system_metrics.CppStd.Numbers.{signed_at, skip_space, negated}
use real_time_system_metrics.CppStd.Stream.{Stream, stream_of, read_word, read_u64}

-- `parser >> thread_count` for an `int` that is 0 before: 0 without digits, and the nearest `int` out
-- of range.
abbrev pub int_of : Option ℤ → ℤ
int_of none = pos 0
int_of (some z) =
    if leb_ℤ (pos (2 ^ 31)) z
    then pos (2 ^ 31 - 1)
    else if ltb_ℤ z (negated (2 ^ 31))
    then negated (2 ^ 31)
    else z

-- The loop over the lines, up to the first that begins with "Threads:".
unfoldable pub threads_loop : List Bytes → ℤ
threads_loop [] = pos 0
threads_loop (line ∷ lines) =
    if bytes_eq (take 8 line) (codes "Threads:")
    then int_of (signed_at (skip_space (drop 8 line)))
    else threads_loop lines

abbrev pub count_or_zero : Option ℕ → ℤ
count_or_zero none = pos 0
count_or_zero (some n) = pos n

-- `thread_count` and `handle_count`; without the file `fd` is not read.
unfoldable pub read_linux_process_status_fields : Option Bytes → Option ℕ → ℤ × ℤ
unfolding threads_loop getlines
read_linux_process_status_fields none fd_count = (pos 0, pos 0)
read_linux_process_status_fields (some text) fd_count =
    (threads_loop (getlines b'\n' text), count_or_zero fd_count)

-- `read_bytes` and `write_bytes`
abbrev pub IoBytes : Type 0
IoBytes = ℕ × ℕ

abbrev pub store_io : Bytes → ℕ → IoBytes → IoBytes
store_io key value (read_bytes, write_bytes) =
    if bytes_eq key (codes "read_bytes:")
    then (value, write_bytes)
    else if bytes_eq key (codes "write_bytes:")
    then (read_bytes, value)
    else (read_bytes, write_bytes)

-- `while (io_file >> key >> value)`, on fuel: a round takes at least one byte.
unfoldable pub io_loop : ℕ → Stream → IoBytes → IoBytes
io_loop zero s bytes = bytes
io_loop (suc fuel) s bytes =
    let (word, s₁) = read_word s in
    elim word [
      | none ↦ bytes
      | some key ↦
          let (value, s₂) = read_u64 0 s₁ in
          elim s₂.fail [ true ↦ bytes | false ↦ io_loop fuel s₂ (store_io key value bytes) ]
    ]

module _ {W : Type 0} ⦃d : Double W⦄ where
  abbrev pub megabytes : ℕ → W
  megabytes n = d.div (d.of_nat n) (d.mul (d.of_nat 1024) (d.of_nat 1024))

  -- `io_read_mb` and `io_write_mb`
  unfoldable pub read_linux_process_io : Option Bytes → W × W
  unfolding io_loop
  read_linux_process_io none = (d.of_nat 0, d.of_nat 0)
  read_linux_process_io (some text) =
      let (read_bytes, write_bytes) = io_loop (length text + 1) (stream_of text) (0, 0) in
      (megabytes read_bytes, megabytes write_bytes)
