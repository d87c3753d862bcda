-- ===== src/Proc/Tests.antt =====
-- Files of a process, and the loop over /proc/<pid>/io at a concrete text.
use real_time_system_metrics.Base.{
  ℕ, none, ◌==◌, if◌then◌else◌, ◌∷◌, [], ◌+◌, ◌≡◌, refl, some, Bytes, codes, bytes_eq, length, pos,
  List, All, Lacks, arith, ◌%◌, ◌^◌, ◌++◌,
}
use real_time_system_metrics.CppStd.Getline.{getlines}
use real_time_system_metrics.CppStd.Numbers.{stoull, signed_at, skip_space}
use real_time_system_metrics.CppStd.Stream.{stream_of, read_word, read_u64}
use real_time_system_metrics.Double.Fixed.{Fixed, fixed_double}
use real_time_system_metrics.Proc.{ProcessFiles, collect_linux_process_snapshot}
use real_time_system_metrics.Proc.Listing.{IsListing, collect_linux_process_snapshot-IsListing}
use real_time_system_metrics.Proc.Stat.{
  stat_thrown, stat_fields, read_linux_process_stat, words_loop, find_byte, rfind_byte,
  stat_between, stat_tail, stat_values,
}
use real_time_system_metrics.Proc.Files.{
  read_linux_process_io, read_linux_process_status_fields, threads_loop, io_loop,
}
use real_time_system_metrics.Proc.Lines.{stat_line, spaced, IsField, read_linux_process_stat-line}
use real_time_system_metrics.CppStd.Keyed.{KeyLine}
use real_time_system_metrics.Proc.Written.{counters_text, read_linux_process_io-counters_text}
use real_time_system_metrics.Proc.Loops.{IoRun, io_loop-IoRun}

-- A name with a space and a parenthesis of its own.
abbrev stat_text : Bytes
stat_text = codes "42 (a) b) S 1 2 3 4 5 6 7 8 9 10 30 12 13 14 15 16 17 18 19 20 512 22 23\n"

name_with_parenthesis : read_linux_process_stat (some stat_text) ≡ stat_fields (codes "a) b") 42 512
unfolding read_linux_process_stat words_loop find_byte rfind_byte stat_between stat_tail stat_values
    getlines stoull
name_with_parenthesis = refl

-- A line that ends with the name makes `substr` throw.
cut_behind_name : read_linux_process_stat (some (codes "42 (a)")) ≡ stat_thrown
unfolding read_linux_process_stat find_byte rfind_byte stat_between getlines
cut_behind_name = refl

four_threads :
    read_linux_process_status_fields (some (codes "Name:\ta\nThreads:\t4\n")) (some 9)
    ≡ (pos 4, pos 9)
unfolding read_linux_process_status_fields threads_loop getlines bytes_eq signed_at skip_space
four_threads = refl

abbrev io_text : Bytes
io_text = codes "rchar: 7\nread_bytes: 4096\nwrite_bytes: 512\n"

io_counts : io_loop (length io_text + 1) (stream_of io_text) (0, 0) ≡ (4096, 512)
unfolding io_loop read_word read_u64 bytes_eq
io_counts = refl

io_loop-IoRun_example :
    IoRun (stream_of io_text) (0, 0) (io_loop (length io_text + 1) (stream_of io_text) (0, 0))
io_loop-IoRun_example = io_loop-IoRun io_text

abbrev pid_text : Bytes
pid_text = codes "4 "

abbrev stat_fields_text : List Bytes
stat_fields_text =
    codes "S"
    ∷ codes "1"
    ∷ codes "2"
    ∷ codes "3"
    ∷ codes "4"
    ∷ codes "5"
    ∷ codes "6"
    ∷ codes "7"
    ∷ codes "8"
    ∷ codes "9"
    ∷ codes "10"
    ∷ codes "30"
    ∷ codes "12"
    ∷ codes "13"
    ∷ codes "14"
    ∷ codes "15"
    ∷ codes "16"
    ∷ codes "17"
    ∷ codes "18"
    ∷ codes "19"
    ∷ codes "20"
    ∷ codes "512"
    ∷ []

no_newline : Lacks b'\n' (stat_line pid_text (codes "a) b") stat_fields_text)
no_newline = omega arith

no_parenthesis : Lacks b')' (spaced stat_fields_text)
no_parenthesis = omega arith

nothing_blank : All IsField stat_fields_text
nothing_blank = ground arith

read_linux_process_stat-line_example :
    read_linux_process_stat
      (some (stat_line pid_text (codes "a) b") stat_fields_text ++ b'\n' ∷ []))
    ≡ stat_fields (codes "a) b") ((30 + 12) % 2 ^ 64) 512
unfolding stoull signed_at skip_space
read_linux_process_stat-line_example =
    read_linux_process_stat-line pid_text (codes "a) b") stat_fields_text [] (omega arith)
      no_parenthesis no_newline nothing_blank (omega arith) refl refl refl

-- A process whose files are there, and another whose files are gone.
abbrev files_of : ℕ → ProcessFiles
files_of pid =
    if pid == 42
    then record { stat = some stat_text; status = none; fd_count = none; io = none }
    else record { stat = none; status = none; fd_count = none; io = none }

collect_linux_process_snapshot-IsListing_example :
    IsListing {W = Fixed} (pos 4096) files_of (codes "self" ∷ codes "42" ∷ codes "7" ∷ []) (
      collect_linux_process_snapshot
        (pos 4096)
        files_of
        (codes "self" ∷ codes "42" ∷ codes "7" ∷ []))
collect_linux_process_snapshot-IsListing_example =
    collect_linux_process_snapshot-IsListing Fixed (pos 4096) files_of
      (codes "self" ∷ codes "42" ∷ codes "7" ∷ [])

abbrev io_lines : List KeyLine
io_lines =
    record { key = codes "rchar:"; pad = 0; value = 7 }
    ∷ record { key = codes "read_bytes:"; pad = 0; value = 2_097_152 }
    ∷ record { key = codes "write_bytes:"; pad = 0; value = 1_048_576 }
    ∷ []

read_linux_process_io-counters_text_example :
    read_linux_process_io {W = Fixed} (some (counters_text io_lines))
    ≡ (some 2_000_000, some 1_000_000)
unfolding bytes_eq
read_linux_process_io-counters_text_example =
    read_linux_process_io-counters_text io_lines (ground arith)
