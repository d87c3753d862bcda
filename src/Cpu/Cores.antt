-- ===== src/Cpu/Cores.antt =====
-- What `read_linux_per_core_cpu_times` makes of /proc/stat as the kernel writes it.
use mathlib.Core.Path.{subst}
use real_time_system_metrics.Base.{
  ◌≢◌, take, bytes_eq_sound, Bool-cases, inl, inr, ℕ, ◌≡◌, refl, sym, ap, ◌∙◌, true, false, List,
  [], ◌∷◌, ◌++◌, map, append_assoc, append-nil, some, Bytes, codes, bytes_eq, All, All-append,
  All-mono, Lacks, arith,
}
use real_time_system_metrics.CppStd.Chars.{is_space}
use real_time_system_metrics.CppStd.Getline.{getlines, getline_loop, getline_loop-line}
use real_time_system_metrics.CppStd.Numbers.{to_string}
use real_time_system_metrics.CppStd.Printing.{AreDigits, to_string-AreDigits, to_string-cons}
use real_time_system_metrics.CppStd.Stream.{stream_of, stopped_at}
use real_time_system_metrics.CppStd.Reading.{
  IsWord, EndsNumber, numbered, read_word-word, read_u64-numbered,
}
use real_time_system_metrics.Cpu.{
  CpuTimes, times_of, read_cpu_line, is_core_line, core_times_step, core_times_loop, if_any,
  read_linux_per_core_cpu_times,
}
use real_time_system_metrics.Cpu.Written.{
  Counters, behind_user, counters, AreCounters, counted, line_of, read_cpu_line_lem,
}

-- A line of /proc/stat: a core with its number, its counters and further numbers; the line of all cores,
-- which has a space behind its label; or any line that does not begin with "cpu".
pub data StatLine : Type 0 where
  core : ℕ → Counters → List ℕ → StatLine
  total : Bytes → StatLine
  other : Bytes → StatLine

abbrev label_of : ℕ → Bytes
label_of i = codes "cpu" ++ to_string i

abbrev pub written : StatLine → Bytes
written (core i c more) = label_of i ++ numbered (counters c) (numbered more [])
written (total tail) = codes "cpu " ++ tail
written (other line) = line

abbrev pub IsStatLine : StatLine → Type 0
IsStatLine (core i c more) = AreCounters c
IsStatLine (total tail) = Lacks b'\n' tail
IsStatLine (other line) = Lacks b'\n' line × (take 3 line ≢ codes "cpu")

abbrev pub stat_text : List StatLine → Bytes
stat_text [] = []
stat_text (l ∷ ls) = written l ++ b'\n' ∷ stat_text ls

-- The times of the cores among the lines, in their order.
abbrev pub times_in : List StatLine → List CpuTimes
times_in [] = []
times_in (core i c more ∷ ls) = counted c ∷ times_in ls
times_in (total tail ∷ ls) = times_in ls
times_in (other line ∷ ls) = times_in ls

digits-IsWord : (ds : Bytes) → AreDigits ds → All (λ b. is_space b ≡ false) ds
digits-IsWord ds h = All-mono _ _ ds (λ b k. ground (arith, k)) h

digits-Lacks : (ds : Bytes) → AreDigits ds → Lacks b'\n' ds
digits-Lacks ds h = All-mono _ _ ds (λ b k e. absurd (ground (arith, k))) h

label_of-IsWord : (i : ℕ) → IsWord (label_of i)
label_of-IsWord i = (refl, (refl, (refl, digits-IsWord (to_string i) (to_string-AreDigits i))))

numbered-Lacks : (ns : List ℕ) (tail : Bytes) → Lacks b'\n' tail → Lacks b'\n' (numbered ns tail)
numbered-Lacks [] tail h = h
numbered-Lacks (n ∷ ns) tail h = (
  λ e. absurd (ground arith),
  All-append _ (to_string n) (numbered ns tail) (digits-Lacks (to_string n) (to_string-AreDigits n))
      (numbered-Lacks ns tail h),
)

written-Lacks : (l : StatLine) → IsStatLine l → Lacks b'\n' (written l)
written-Lacks (core i c more) h =
    All-append _ (label_of i) _
      (
        λ e. absurd (ground arith),
        (
          λ e. absurd (ground arith),
          (λ e. absurd (ground arith), digits-Lacks (to_string i) (to_string-AreDigits i)),
        ),
      )
      (numbered-Lacks (counters c) (numbered more []) (numbered-Lacks more [] tt))
written-Lacks (total tail) h = (
  λ e. absurd (ground arith),
  (λ e. absurd (ground arith), (λ e. absurd (ground arith), (λ e. absurd (ground arith), h))),
)
written-Lacks (other line) h = h.0

getlines-stat_text :
    (ls : List StatLine) → All IsStatLine ls → getlines b'\n' (stat_text ls) ≡ map written ls
unfolding getlines getline_loop
getlines-stat_text [] h = refl
getlines-stat_text (l ∷ ls) (h, hs) =
    getline_loop-line [] (written l) (stat_text ls) (written-Lacks l h)
    ∙ ap (◌∷◌ (written l)) (getlines-stat_text ls hs)

label_of-IsCoreLine : (i : ℕ) (s : Bytes) → is_core_line (label_of i ++ s) ≡ true
unfolding is_core_line bytes_eq
label_of-IsCoreLine i s =
    let (d, ds, q) = to_string-cons i in
    let digits = subst AreDigits q (to_string-AreDigits i) in rw (q, digits.0)

read_cpu_line-core :
    (i : ℕ) (c : Counters) (tail : Bytes)
    → AreCounters c
    → EndsNumber tail
    → read_cpu_line (stream_of (label_of i ++ numbered (counters c) tail))
      ≡ line_of (label_of i) c (stopped_at tail false)
read_cpu_line-core i c tail h e =
    read_cpu_line_lem _ _ (label_of i) c tail
      (read_word-word (label_of i) b' ' (to_string c.user ++ numbered (behind_user c) tail) refl
        (label_of-IsWord i))
      (read_u64-numbered c.user (behind_user c) tail h.0 e) h e

core_times_step-core :
    (i : ℕ) (c : Counters) (more : List ℕ) (ts : List CpuTimes)
    → AreCounters c
    → core_times_step (written (core i c more)) ts ≡ ts ++ counted c ∷ []
unfolding core_times_step times_of
core_times_step-core i c [] ts h =
    rw (read_cpu_line-core i c [] h tt, label_of-IsCoreLine i (numbered (counters c) []))
core_times_step-core i c (n ∷ more) ts h =
    let tail = numbered (n ∷ more) [] in
    rw (read_cpu_line-core i c tail h refl, label_of-IsCoreLine i (numbered (counters c) tail))

core_times_step-other :
    (line : Bytes) (ts : List CpuTimes) → is_core_line line ≡ false → core_times_step line ts ≡ ts
unfolding core_times_step
core_times_step-other line ts h = rw h

no_cpu : (s : Bytes) → s ≢ codes "cpu" → bytes_eq s (codes "cpu") ≡ false
no_cpu s h = elim (Bool-cases (bytes_eq s (codes "cpu"))) [
  | inl e ↦ absurd (h (bytes_eq_sound s (codes "cpu") e))
  | inr e ↦ e
]

-- The digit behind the label tells a core from the line of all cores.
total-IsCoreLine : (tail : Bytes) → is_core_line (codes "cpu " ++ tail) ≡ false
unfolding is_core_line bytes_eq
total-IsCoreLine tail = refl

other-IsCoreLine : (line : Bytes) → take 3 line ≢ codes "cpu" → is_core_line line ≡ false
unfolding is_core_line
other-IsCoreLine [] h = refl
other-IsCoreLine (a ∷ []) h = refl
other-IsCoreLine (a ∷ b ∷ []) h = refl
other-IsCoreLine (a ∷ b ∷ c ∷ []) h = no_cpu (a ∷ b ∷ c ∷ []) h
other-IsCoreLine (a ∷ b ∷ c ∷ e ∷ line) h = rw (no_cpu (a ∷ b ∷ c ∷ []) h)

core_times_loop-written :
    (ls : List StatLine) (ts : List CpuTimes)
    → All IsStatLine ls
    → core_times_loop (map written ls) ts ≡ ts ++ times_in ls
unfolding core_times_loop
core_times_loop-written [] ts h = sym (append-nil ts)
core_times_loop-written (core i c more ∷ ls) ts (h, hs) =
    ap (core_times_loop (map written ls)) (core_times_step-core i c more ts h)
    ∙ core_times_loop-written ls (ts ++ counted c ∷ []) hs
    ∙ append_assoc ts (counted c ∷ []) (times_in ls)
core_times_loop-written (total tail ∷ ls) ts (h, hs) =
    ap (core_times_loop (map written ls))
      (core_times_step-other (codes "cpu " ++ tail) ts (total-IsCoreLine tail))
    ∙ core_times_loop-written ls ts hs
core_times_loop-written (other line ∷ ls) ts (h, hs) =
    ap (core_times_loop (map written ls))
      (core_times_step-other line ts (other-IsCoreLine line h.1))
    ∙ core_times_loop-written ls ts hs

-- `read_linux_per_core_cpu_times` on /proc/stat as the kernel writes it: for the lines of the cores, each
-- with its number, eight counters of 64 bits and any further numbers, it gets the idle and the total time of
-- each, modulo 2^64 and in their order; it skips the line of all cores, "cpu" with a space behind it, and
-- every line that does not begin with "cpu", wherever they stand; and it fails exactly if there is no core.
pub read_linux_per_core_cpu_times-stat_text :
    (ls : List StatLine)
    → All IsStatLine ls
    → read_linux_per_core_cpu_times (some (stat_text ls)) ≡ if_any (times_in ls)
unfolding read_linux_per_core_cpu_times
read_linux_per_core_cpu_times-stat_text ls h =
    ap (λ lines. if_any (core_times_loop lines [])) (getlines-stat_text ls h)
    ∙ ap if_any (core_times_loop-written ls [] h)
