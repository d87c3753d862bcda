-- ===== src/Proc/Snapshot.antt =====
-- The snapshot of all processes: one entry for each number, and only sound ones.
use mathlib.Core.Path.{subst}
use real_time_system_metrics.Base.{
  ℕ, zero, suc, ◌+◌, ◌^◌, ◌<◌, ◌==◌, ◌≡◌, refl, not, List, [], ◌∷◌, Option, none, some, Bytes, All,
  arith, Bool-cases, Option-cases, inl, inr, ℤ, pos, negsuc, ◌<ℤ◌, length, ltb, leb,
}
use real_time_system_metrics.Double.{Double, IsIeee, IsNum}
use real_time_system_metrics.CppStd.Map.{assign, Decides, IsMap, assign-IsMap}
use real_time_system_metrics.CppStd.Numbers.{
  digits_value, stoull, unsigned_of, signed_at, skip_space,
}
use real_time_system_metrics.CppStd.Getline.{getlines}
use real_time_system_metrics.Processes.{ProcessSnapshot, Snapshots}
use real_time_system_metrics.Processes.Top.{IsSound}
use real_time_system_metrics.Proc.Stat.{
  StatResult, stat_fields, stat_refused, stat_thrown, read_linux_process_stat, stat_values,
  stat_tail, stat_between, first_of, find_byte, rfind_byte, field_value, get_elem?,
}
use real_time_system_metrics.Proc.{
  ProcessFiles, Collected, collected, thrown, memory_of, snapshot_of, add_process, collect_round,
  collect_loop, is_numeric_text, then_collect, collect_linux_process_snapshot,
}

-- Values of 64 bits.
abbrev pub AreWords : StatResult → Type 0
AreWords (stat_fields name cpu_time rss_pages) = (cpu_time < 2 ^ 64) × (rss_pages < 2 ^ 64)
AreWords _ = Unit

unsigned_of-lt : (z : Option ℤ) (n : ℕ) → unsigned_of z ≡ some n → n < 2 ^ 64
unfolding unsigned_of
unsigned_of-lt none n e = cc
unsigned_of-lt (some (pos m)) n e = ground arith
unsigned_of-lt (some (negsuc m)) n e = ground arith

stoull-lt : (s : Bytes) (n : ℕ) → stoull s ≡ some n → n < 2 ^ 64
unfolding stoull
stoull-lt s n e = unsigned_of-lt (signed_at (skip_space s)) n e

field_value-lt : (fields : List Bytes) (i n : ℕ) → field_value fields i ≡ some n → n < 2 ^ 64
field_value-lt fields i n e = elim (Option-cases (get_elem? fields i)) [
  | inl g ↦ absurd (cc (rw (g, field_value) at e))
  | inr (t, g) ↦ stoull-lt t n (rw (g, field_value) at e)
]

stat_values-AreWords :
    (name : Bytes) (user system rss : Option ℕ)
    → ((n : ℕ) → rss ≡ some n → n < 2 ^ 64)
    → AreWords (stat_values name user system rss)
unfolding stat_values
stat_values-AreWords name (some u) (some s) (some r) h = let k = h r refl in omega (arith, k)
stat_values-AreWords name none system rss h = tt
stat_values-AreWords name (some u) none rss h = tt
stat_values-AreWords name (some u) (some s) none h = tt

stat_tail-AreWords : (name : Bytes) (fields : List Bytes) → AreWords (stat_tail name fields)
unfolding stat_tail
stat_tail-AreWords name fields = elim (Bool-cases (ltb (length fields) 22)) [
  | inl e ↦ rw e tt
  | inr e ↦ rw e (stat_values-AreWords name _ _ _ (field_value-lt fields 21))
]

stat_between-AreWords :
    (line : Bytes) (open_paren close_paren : Option ℕ)
    → AreWords (stat_between line open_paren close_paren)
unfolding stat_between
stat_between-AreWords line (some o) (some c) = elim (Bool-cases (leb c o)) [
  | inl e ↦ rw e tt
  | inr e ↦ rw e (elim (Bool-cases (ltb (length line) (c + 2))) [
    | inl f ↦ rw f tt
    | inr f ↦ rw f (stat_tail-AreWords _ _)
  ])
]
stat_between-AreWords line none c = tt
stat_between-AreWords line (some o) none = tt

pub read_linux_process_stat-AreWords :
    (file : Option Bytes) → AreWords (read_linux_process_stat file)
unfolding read_linux_process_stat
read_linux_process_stat-AreWords none = tt
read_linux_process_stat-AreWords (some text) =
    let line = first_of (getlines b'\n' text) in
    stat_between-AreWords line (find_byte b'(' line) (rfind_byte b')' line)

pub same_number : Decides ◌==◌
same_number a b = ground arith

module _ {W : Type 0} ⦃d : Double W⦄ where
  assign-All :
      (P : ℕ × ProcessSnapshot W → Type 0) (pid : ℕ) (p : ProcessSnapshot W) (m : Snapshots W)
      → P (pid, p)
      → All P m
      → All P (assign ◌==◌ pid p m)
  unfolding assign
  assign-All P pid p [] h hs = (h, tt)
  assign-All P pid p ((q, old) ∷ m) h (k, hs) = elim (Bool-cases (q == pid)) [
    | inl e ↦ let same : pid ≡ q = ground (arith, e) in rw e (subst (λ x. P (x, p)) same h, hs)
    | inr e ↦ rw e (k, assign-All P pid p m h hs)
  ]

  -- One snapshot for each number, and each entry with the property.
  abbrev pub IsEach : (ℕ × ProcessSnapshot W → Type 0) → Collected W → Type 0
  IsEach P (collected m) = IsMap m × All P m
  IsEach P thrown = Unit

  then_collect-IsEach :
      {P : ℕ × ProcessSnapshot W → Type 0} (r : Collected W) (f : Snapshots W → Collected W)
      → IsEach P r
      → ((m : Snapshots W) → IsMap m → All P m → IsEach P (f m))
      → IsEach P (then_collect r f)
  then_collect-IsEach (collected m) f (g, gs) h = h m g gs
  then_collect-IsEach thrown f g h = tt

  -- What every entry satisfies that `stat` gives is satisfied by every entry of the snapshot.
  module _ (page_size : ℤ) (files : ℕ → ProcessFiles) (P : ℕ × ProcessSnapshot W → Type 0)
      (each : (pid : ℕ) (name : Bytes) (cpu_time rss : ℕ)
        → read_linux_process_stat (files pid).stat ≡ stat_fields name cpu_time rss
        → P (pid, snapshot_of page_size pid (files pid) name cpu_time rss)) where
    add_process-IsEach :
        (pid : ℕ) (r : StatResult) (m : Snapshots W)
        → read_linux_process_stat (files pid).stat ≡ r
        → IsMap m
        → All P m
        → IsEach P (add_process page_size pid (files pid) r m)
    unfolding add_process
    add_process-IsEach pid (stat_fields name cpu_time rss) m e g gs = (
      assign-IsMap ◌==◌ same_number pid _ m g,
      assign-All P pid _ m (each pid name cpu_time rss e) gs,
    )
    add_process-IsEach pid stat_refused m e g gs = (g, gs)
    add_process-IsEach pid stat_thrown m e g gs = tt

    collect_round-IsEach :
        (pid_text : Bytes) (m : Snapshots W)
        → IsMap m
        → All P m
        → IsEach P (collect_round page_size files pid_text m)
    unfolding collect_round
    collect_round-IsEach pid_text m g gs =
        let pid = digits_value 0 pid_text in
        elim (Bool-cases (not (is_numeric_text pid_text))) [
          | inl e ↦ rw e (g, gs)
          | inr e ↦ rw e (elim (Bool-cases (pid == 0)) [
            | inl f ↦ rw f (g, gs)
            | inr f ↦ rw f (add_process-IsEach pid _ m refl g gs)
          ])
        ]

    collect_loop-IsEach :
        (entries : List Bytes) (m : Snapshots W)
        → IsMap m
        → All P m
        → IsEach P (collect_loop page_size files entries m)
    unfolding collect_loop
    collect_loop-IsEach [] m g gs = (g, gs)
    collect_loop-IsEach (e ∷ entries) m g gs =
        then_collect-IsEach (collect_round page_size files e m)
          (collect_loop page_size files entries) (collect_round-IsEach e m g gs)
          (collect_loop-IsEach entries)

    pub collect_linux_process_snapshot-IsEach :
        (entries : List Bytes) → IsEach P (collect_linux_process_snapshot page_size files entries)
    unfolding collect_linux_process_snapshot
    collect_linux_process_snapshot-IsEach entries = collect_loop-IsEach entries [] tt tt

  -- One snapshot for each number, all of them sound.
  abbrev pub IsGood : Collected W → Type 0
  IsGood = IsEach IsSound

  memory_of-IsNum :
      (laws : IsIeee W) (page_size : ℤ) (rss : ℕ)
      → page_size <ℤ pos (2 ^ 64)
      → rss < 2 ^ 64
      → IsNum {W = W} (memory_of page_size rss)
  memory_of-IsNum laws (pos zero) rss k h = laws.of_nat-IsNum 0
  memory_of-IsNum laws (negsuc n) rss k h = laws.of_nat-IsNum 0
  memory_of-IsNum laws (pos (suc n)) rss k h =
      rw (laws.megabyte, memory_of)
        (laws.scaled-IsNum rss (suc n) 1_048_576 h (omega (arith, k)) (omega arith) (omega arith))

  module _ (laws : IsIeee W) (page_size : ℤ) (fits : page_size <ℤ pos (2 ^ 64))
      (files : ℕ → ProcessFiles) where
    entry-IsSound :
        (pid : ℕ) (name : Bytes) (cpu_time rss : ℕ)
        → read_linux_process_stat (files pid).stat ≡ stat_fields name cpu_time rss
        → IsSound {W = W} (pid, snapshot_of page_size pid (files pid) name cpu_time rss)
    unfolding snapshot_of
    entry-IsSound pid name cpu_time rss e =
        let words = subst AreWords e (read_linux_process_stat-AreWords (files pid).stat) in
        (words.0, memory_of-IsNum laws page_size rss fits words.1)

    -- With doubles as in IEEE 754 and a page size below 2^64: unless a reader throws, the snapshot of all
    -- processes has one entry for each number, whatever names stand in /proc and whatever their
    -- files hold, and in each entry the CPU time is of 64 bits and the memory is not NaN.
    pub collect_linux_process_snapshot-IsGood :
        (entries : List Bytes) → IsGood (collect_linux_process_snapshot page_size files entries)
    collect_linux_process_snapshot-IsGood entries =
        collect_linux_process_snapshot-IsEach page_size files IsSound entry-IsSound entries
