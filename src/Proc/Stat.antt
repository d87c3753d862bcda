-- ===== src/Proc/Stat.antt =====
-- agent/src/metrics_collector.cpp: `read_linux_process_stat`.
use real_time_system_metrics.Base.{
  ℕ, zero, suc, ◌+◌, ◌-◌, ◌%◌, ◌^◌, ◌==◌, true, false, List, [], ◌∷◌, ◌++◌, Option, none, some,
  Bytes, if◌then◌else◌, ltb, leb, length, take, drop,
}
use real_time_system_metrics.CppStd.Chars.{is_space}
use real_time_system_metrics.CppStd.Getline.{getlines}
use real_time_system_metrics.CppStd.Numbers.{stoull}

-- `false`, the exception of `substr`, or what is stored.
pub data StatResult : Type 0 where
  stat_refused : StatResult
  stat_thrown : StatResult
  stat_fields : (process_name : Bytes) → (cpu_time rss_pages : ℕ) → StatResult

-- The line that the first `std::getline` leaves.
abbrev pub first_of : List Bytes → Bytes
first_of [] = []
first_of (line ∷ lines) = line

-- `find` and `rfind` of a byte.
unfoldable pub find_byte : ℕ → Bytes → Option ℕ
find_byte b [] = none
find_byte b (c ∷ s) =
    if c == b then some 0 else elim (find_byte b s) [ none ↦ none | some i ↦ some (suc i) ]

unfoldable pub rfind_byte : ℕ → Bytes → Option ℕ
rfind_byte b [] = none
rfind_byte b (c ∷ s) = elim (rfind_byte b s) [
  | none ↦ if c == b then some 0 else none
  | some i ↦ some (suc i)
]

-- `while (stream >> token)`: the words between spaces, behind the bytes of the current one.
unfoldable pub words_loop : Bytes → Bytes → List Bytes
words_loop [] [] = []
words_loop (b ∷ token) [] = (b ∷ token) ∷ []
words_loop [] (c ∷ s) = words_loop (if is_space c then [] else c ∷ []) s
words_loop (b ∷ token) (c ∷ s) = elim (is_space c) [
  | true ↦ (b ∷ token) ∷ words_loop [] s
  | false ↦ words_loop (b ∷ token ++ c ∷ []) s
]

abbrev pub get_elem? : List Bytes → ℕ → Option Bytes
get_elem? [] i = none
get_elem? (x ∷ xs) zero = some x
get_elem? (x ∷ xs) (suc i) = get_elem? xs i

-- `std::stoull(fields[i])`
abbrev pub field_value : List Bytes → ℕ → Option ℕ
field_value fields i = elim (get_elem? fields i) [ none ↦ none | some t ↦ stoull t ]

-- The conversions, each of which may throw inside the `try`.
unfoldable pub stat_values : Bytes → Option ℕ → Option ℕ → Option ℕ → StatResult
stat_values process_name (some user_ticks) (some system_ticks) (some rss_pages) =
    stat_fields process_name ((user_ticks + system_ticks) % 2 ^ 64) rss_pages
stat_values process_name _ _ _ = stat_refused

unfoldable pub stat_tail : Bytes → List Bytes → StatResult
unfolding stat_values
stat_tail process_name fields =
    if ltb (length fields) 22
    then stat_refused
    else stat_values process_name (field_value fields 11) (field_value fields 12)
        (field_value fields 21)

-- The line between its first `(` and its last `)`; `substr` throws behind the end of the line.
unfoldable pub stat_between : Bytes → Option ℕ → Option ℕ → StatResult
unfolding stat_tail words_loop
stat_between line (some open_paren) (some close_paren) =
    if leb close_paren open_paren
    then stat_refused
    else if ltb (length line) (close_paren + 2)
    then stat_thrown
    else stat_tail (take (close_paren - open_paren - 1) (drop (open_paren + 1) line))
        (words_loop [] (drop (close_paren + 2) line))
stat_between line _ _ = stat_refused

unfoldable pub read_linux_process_stat : Option Bytes → StatResult
unfolding stat_between find_byte rfind_byte getlines
read_linux_process_stat none = stat_refused
read_linux_process_stat (some text) =
    let line = first_of (getlines b'\n' text) in
    stat_between line (find_byte b'(' line) (rfind_byte b')' line)
