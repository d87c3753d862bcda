-- ===== src/Cpu/Written.antt =====
-- What the readers of /proc/stat make of a text as the kernel writes it.
use real_time_system_metrics.Base.{
  ℕ, ◌+◌, ◌^◌, ◌<◌, ◌≡◌, refl, ap, ◌∙◌, false, List, [], ◌∷◌, ◌++◌, Option, none, some, Bytes,
  codes, bytes_eq, All,
}
use real_time_system_metrics.CppStd.Stream.{Stream, stream_of, stopped_at, read_word, read_u64}
use real_time_system_metrics.CppStd.Reading.{
  EndsNumber, numbered, read_word-word, read_u64-numbered, read_u64-space,
}
use real_time_system_metrics.Cpu.{
  CpuTimes, CpuLine, u64, label_or_empty, times_of, read_cpu_line, accept_cpu_line,
  read_linux_cpu_times,
}

-- The eight counters of a line that the agent reads.
pub record Counters : Type 0 where
  pub user : ℕ
  pub nice : ℕ
  pub system : ℕ
  pub idle : ℕ
  pub iowait : ℕ
  pub irq : ℕ
  pub softirq : ℕ
  pub steal : ℕ

abbrev pub behind_user : Counters → List ℕ
behind_user c = c.nice ∷ c.system ∷ c.idle ∷ c.iowait ∷ c.irq ∷ c.softirq ∷ c.steal ∷ []

abbrev pub counters : Counters → List ℕ
counters c = c.user ∷ behind_user c

abbrev pub AreCounters : Counters → Type 0
AreCounters c = All (λ n. n < 2 ^ 64) (counters c)

-- What the agent counts as idle and in total.
abbrev pub counted : Counters → CpuTimes
counted c = record {
  idle_time = u64 (c.idle + c.iowait);
  total_time = u64 (c.user + c.nice + c.system + c.idle + c.iowait + c.irq + c.softirq + c.steal);
}

abbrev pub line_of : Bytes → Counters → Stream → CpuLine
line_of label c s = record {
  label = label;
  user = c.user;
  nice = c.nice;
  system = c.system;
  idle = c.idle;
  iowait = c.iowait;
  irq = c.irq;
  softirq = c.softirq;
  steal = c.steal;
  stream = s;
}

-- Eight extractions in a row.
module _ {S : Type 0} (read : S → ℕ × S) where
  abbrev eight_reads : S → (Counters × S)
  eight_reads s₀ =
      let (user, s₁) = read s₀ in
      let (nice, s₂) = read s₁ in
      let (system, s₃) = read s₂ in
      let (idle, s₄) = read s₃ in
      let (iowait, s₅) = read s₄ in
      let (irq, s₆) = read s₅ in
      let (softirq, s₇) = read s₆ in
      let (steal, s₈) = read s₇ in
      (
        record {
          user = user;
          nice = nice;
          system = system;
          idle = idle;
          iowait = iowait;
          irq = irq;
          softirq = softirq;
          steal = steal;
        },
        s₈,
      )

  eight_reads_lem :
      (c : Counters) (s₀ : S) {s₁ s₂ s₃ s₄ s₅ s₆ s₇ s₈ : S}
      → read s₀ ≡ (c.user, s₁)
      → read s₁ ≡ (c.nice, s₂)
      → read s₂ ≡ (c.system, s₃)
      → read s₃ ≡ (c.idle, s₄)
      → read s₄ ≡ (c.iowait, s₅)
      → read s₅ ≡ (c.irq, s₆)
      → read s₆ ≡ (c.softirq, s₇)
      → read s₇ ≡ (c.steal, s₈)
      → eight_reads s₀ ≡ (c, s₈)
  eight_reads_lem c s₀ e₀ e₁ e₂ e₃ e₄ e₅ e₆ e₇ = rw (e₀, e₁, e₂, e₃, e₄, e₅, e₆, e₇)

read_cpu_line-eight_reads :
    (s : Stream)
    → let (word, s₀) = read_word s in
      let (c, s₈) = eight_reads (read_u64 0) s₀ in
      read_cpu_line s ≡ line_of (label_or_empty word) c s₈
unfolding read_cpu_line
read_cpu_line-eight_reads s = refl

read_cpu_line_by :
    (s : Stream) {s₀ s₈ : Stream} {label : Bytes} (c : Counters)
    → read_word s ≡ (some label, s₀)
    → eight_reads (read_u64 0) s₀ ≡ (c, s₈)
    → read_cpu_line s ≡ line_of label c s₈
read_cpu_line_by s {s₀} {s₈} {label} c e r =
    read_cpu_line-eight_reads s
    ∙ ap
        (λ (p : Option Bytes × Stream).
          let (word, s₁) = p in
          let (c', s₂) = eight_reads (read_u64 0) s₁ in line_of (label_or_empty word) c' s₂)
        e
    ∙ ap (λ (p : Counters × Stream). line_of label p.0 p.1) r

pub read_cpu_line_lem :
    (s s₀ : Stream) (label : Bytes) (c : Counters) (tail : Bytes)
    → read_word s ≡ (some label, s₀)
    → read_u64 0 s₀ ≡ (c.user, stream_of (numbered (behind_user c) tail))
    → AreCounters c
    → EndsNumber tail
    → read_cpu_line s ≡ line_of label c (stopped_at tail false)
read_cpu_line_lem s s₀ label c tail word user (_, (h1, (h2, (h3, (h4, (h5, (h6, (h7, _)))))))) e =
    read_cpu_line_by s c word (
      eight_reads_lem (read_u64 0) c s₀ user
        (read_u64-numbered c.nice (c.system ∷ c.idle ∷ c.iowait ∷ c.irq ∷ c.softirq ∷ c.steal ∷ [])
          tail h1 e)
        (read_u64-numbered c.system (c.idle ∷ c.iowait ∷ c.irq ∷ c.softirq ∷ c.steal ∷ []) tail h2
          e)
        (read_u64-numbered c.idle (c.iowait ∷ c.irq ∷ c.softirq ∷ c.steal ∷ []) tail h3 e)
        (read_u64-numbered c.iowait (c.irq ∷ c.softirq ∷ c.steal ∷ []) tail h4 e)
        (read_u64-numbered c.irq (c.softirq ∷ c.steal ∷ []) tail h5 e)
        (read_u64-numbered c.softirq (c.steal ∷ []) tail h6 e)
        (read_u64-numbered c.steal [] tail h7 e))

pub times_of-line :
    (label : Bytes) (c : Counters) (s : Stream) → times_of (line_of label c s) ≡ counted c
unfolding times_of
times_of-line label c s = refl

-- The first line of /proc/stat, with two spaces behind its label, and what follows the eighth number.
abbrev pub total_text : Counters → Bytes → Bytes
total_text c tail = codes "cpu" ++ b' ' ∷ numbered (counters c) tail

abbrev pub unless_at_end : Bytes → CpuTimes → Option CpuTimes
unless_at_end [] times = none
unless_at_end (d ∷ tail) times = some times

accept_cpu_line_lem :
    (c : Counters) (tail : Bytes)
    → accept_cpu_line (line_of (codes "cpu") c (stopped_at tail false))
      ≡ unless_at_end tail (counted c)
unfolding accept_cpu_line bytes_eq times_of
accept_cpu_line_lem c [] = refl
accept_cpu_line_lem c (d ∷ tail) = refl

-- `read_linux_cpu_times` on /proc/stat as the kernel writes it, with eight counters of 64 bits: it gets the
-- idle and the total time, modulo 2^64, whatever stands behind the eighth number, but refuses a
-- text that ends there.
pub read_linux_cpu_times-total_text :
    (c : Counters) (tail : Bytes)
    → AreCounters c
    → EndsNumber tail
    → read_linux_cpu_times (some (total_text c tail)) ≡ unless_at_end tail (counted c)
unfolding read_linux_cpu_times
read_linux_cpu_times-total_text c tail h e =
    let digits = numbered (counters c) tail in
    ap accept_cpu_line (
      read_cpu_line_lem _ (stream_of (b' ' ∷ digits)) (codes "cpu") c tail
        (read_word-word (codes "cpu") b' ' digits refl (refl, (refl, (refl, tt))))
        (read_u64-space 0 digits ∙ read_u64-numbered c.user (behind_user c) tail h.0 e) h e)
    ∙ accept_cpu_line_lem c tail
