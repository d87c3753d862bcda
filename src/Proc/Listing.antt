-- ===== src/Proc/Listing.antt =====
-- Which processes the snapshot of all processes holds.
use mathlib.Core.Path.{subst}
use real_time_system_metrics.Base.{
  ℕ, ◌≡◌, ◌≢◌, refl, ap, ◌∙◌, sym, ◌==◌, Bool, true, false, not, ◌&&◌, ◌||◌, List, [], ◌∷◌, Option,
  none, some, Bytes, if◌then◌else◌, any, arith, Bool-cases, inl, inr, ℤ,
}
use real_time_system_metrics.Double.{Double}
use real_time_system_metrics.CppStd.Chars.{is_digit}
use real_time_system_metrics.CppStd.Numbers.{digits_value}
use real_time_system_metrics.CppStd.Map.{IsMap, find, find-assign}
use real_time_system_metrics.Processes.{ProcessSnapshot, Snapshots}
use real_time_system_metrics.Proc.Stat.{
  StatResult, stat_fields, stat_refused, stat_thrown, read_linux_process_stat,
}
use real_time_system_metrics.Proc.{
  ProcessFiles, Collected, collected, thrown, snapshot_of, add_process, collect_round, collect_loop,
  then_collect, is_numeric_loop, is_numeric_text, collect_linux_process_snapshot,
}
use real_time_system_metrics.Proc.Snapshot.{
  same_number, IsEach, collect_linux_process_snapshot-IsEach,
}

abbrev all_digits : Bytes → Bool
all_digits [] = true
all_digits (c ∷ text) = is_digit c && all_digits text

abbrev is_empty : Bytes → Bool
is_empty [] = true
is_empty (c ∷ text) = false

-- A name in /proc that is digits only and spells the number, which is not 0.
abbrev pub spells : ℕ → Bytes → Bool
spells pid text =
    not (is_empty text) && all_digits text && (digits_value 0 text == pid && not (pid == 0))

is_numeric_loop_lem : (text : Bytes) → is_numeric_loop text ≡ all_digits text
unfolding is_numeric_loop
is_numeric_loop_lem [] = refl
is_numeric_loop_lem (c ∷ text) = elim (Bool-cases (is_digit c)) [
  | inl e ↦ rw e (is_numeric_loop_lem text)
  | inr e ↦ rw e
]

is_numeric_text_lem :
    (text : Bytes) → is_numeric_text text ≡ (not (is_empty text) && all_digits text)
unfolding is_numeric_text
is_numeric_text_lem [] = refl
is_numeric_text_lem (c ∷ text) = is_numeric_loop_lem (c ∷ text)

abbrev or_else : {A : Type 0} → Option A → Option A → Option A
or_else none x = x
or_else (some a) x = some a

-- A number that is named, and whose process makes the reader of `stat` throw.
abbrev pub Throws : (ℕ → ProcessFiles) → (ℕ → Bool) → Type 0
Throws files named =
    (pid : ℕ) × (named pid ≡ true) × (read_linux_process_stat (files pid).stat ≡ stat_thrown)

-- No number that is named has a process that makes the reader of `stat` throw.
abbrev pub ThrowsNone : (ℕ → ProcessFiles) → (ℕ → Bool) → Type 0
ThrowsNone files named =
    (pid : ℕ) → named pid ≡ true → read_linux_process_stat (files pid).stat ≢ stat_thrown

one-ThrowsNone :
    (files : ℕ → ProcessFiles) (pid : ℕ)
    → read_linux_process_stat (files pid).stat ≢ stat_thrown
    → ThrowsNone files (λ k. pid == k)
one-ThrowsNone files pid h k at =
    let path : pid ≡ k = ground (arith, at) in
    subst (λ j. read_linux_process_stat (files j).stat ≢ stat_thrown) path h

module _ {W : Type 0} ⦃d : Double W⦄ (page_size : ℤ) (files : ℕ → ProcessFiles) where
  abbrev of_stat : ℕ → StatResult → Option (ProcessSnapshot W)
  of_stat pid (stat_fields name cpu_time rss) =
      some (snapshot_of page_size pid (files pid) name cpu_time rss)
  of_stat pid _ = none

  -- The snapshot of one process, if its `stat` can be read.
  abbrev pub entry_of : ℕ → Option (ProcessSnapshot W)
  entry_of pid = of_stat pid (read_linux_process_stat (files pid).stat)

  abbrev updated : ℕ → Bool → Option (ProcessSnapshot W) → Option (ProcessSnapshot W)
  updated pid b x = if b then or_else (entry_of pid) x else x

  updated-updated :
      (pid : ℕ) (b c : Bool) (x : Option (ProcessSnapshot W))
      → updated pid c (updated pid b x) ≡ updated pid (b || c) x
  updated-updated pid false c x = refl
  updated-updated pid true false x = refl
  updated-updated pid true true x = twice (entry_of pid)
    where
      twice : (e : Option (ProcessSnapshot W)) → or_else e (or_else e x) ≡ or_else e x
      twice none = refl
      twice (some p) = refl

  -- What a part of the loop has made of the snapshot, by the numbers that it was given.
  abbrev Tracks : (ℕ → Bool) → Snapshots W → Collected W → Type 0
  Tracks named m (collected m') =
      ((pid : ℕ) → find ◌==◌ pid m' ≡ updated pid (named pid) (find ◌==◌ pid m))
      × ThrowsNone files named
  Tracks named m thrown = Throws files named

  entry_at :
      (pid k : ℕ) (r : StatResult) (x : Option (ProcessSnapshot W))
      → read_linux_process_stat (files pid).stat ≡ r
      → (pid == k) ≡ true
      → updated k (pid == k) x ≡ or_else (of_stat pid r) x
  entry_at pid k r x e same =
      let path : pid ≡ k = ground (arith, same) in
      let entry : entry_of k ≡ of_stat pid r =
        subst (λ j. entry_of j ≡ of_stat pid r) path (ap (of_stat pid) e) in
      rw same (ap (λ o. or_else o x) entry)

  add_process-Tracks :
      (pid : ℕ) (r : StatResult) (m : Snapshots W)
      → read_linux_process_stat (files pid).stat ≡ r
      → Tracks (λ k. pid == k) m (add_process page_size pid (files pid) r m)
  unfolding add_process
  add_process-Tracks pid (stat_fields name cpu_time rss) m e = (
    λ k.
        find-assign ◌==◌ same_number k pid (snapshot_of page_size pid (files pid) name cpu_time rss)
          m
        ∙ elim (Bool-cases (pid == k)) [
          | inl same ↦
              ap
                (λ b.
                  if b
                  then some (snapshot_of page_size pid (files pid) name cpu_time rss)
                  else find ◌==◌ k m)
                same
              ∙ sym (entry_at pid k (stat_fields name cpu_time rss) (find ◌==◌ k m) e same)
          | inr other ↦ rw other refl
        ],
    one-ThrowsNone files pid (λ f. cc (e, f)),
  )
  add_process-Tracks pid stat_refused m e = (
    λ k. elim (Bool-cases (pid == k)) [
      | inl same ↦ sym (entry_at pid k stat_refused (find ◌==◌ k m) e same)
      | inr other ↦ rw other refl
    ],
    one-ThrowsNone files pid (λ f. cc (e, f)),
  )
  add_process-Tracks pid stat_thrown m e = (pid, ground arith, e)

  Tracks-same :
      (named named' : ℕ → Bool) (m : Snapshots W) (r : Collected W)
      → ((k : ℕ) → named k ≡ named' k)
      → Tracks named m r
      → Tracks named' m r
  Tracks-same named named' m (collected m') same h =
      (λ k. h.0 k ∙ ap (λ b. updated k b (find ◌==◌ k m)) (same k), λ k at. h.1 k (same k ∙ at))
  Tracks-same named named' m thrown same (pid, holds, e) = (pid, sym (same pid) ∙ holds, e)

  -- A name that spells no number leaves the snapshot.
  skipped-Tracks :
      (text : Bytes) (m : Snapshots W)
      → ((k : ℕ) → spells k text ≡ false)
      → Tracks (λ k. spells k text) m (collected m)
  skipped-Tracks text m skips = (
    λ k. ap (λ b. updated k b (find ◌==◌ k m)) (sym (skips k)),
    λ k at. absurd (cc (skips k, at)),
  )

  collect_round-Tracks :
      (text : Bytes) (m : Snapshots W)
      → Tracks (λ k. spells k text) m (collect_round page_size files text m)
  unfolding collect_round
  collect_round-Tracks text m =
      let pid = digits_value 0 text in
      let numeric = sym (is_numeric_text_lem text) in
      elim (Bool-cases (is_numeric_text text)) [
        | inl e ↦ rw e (elim (Bool-cases (pid == 0)) [
          | inl z ↦ rw z (skipped-Tracks text m (λ k. rw (numeric ∙ e) (ground (arith, z))))
          | inr z ↦ rw z (
              Tracks-same (λ k. pid == k) (λ k. spells k text) m _
                (λ k. rw (numeric ∙ e) (ground (arith, z))) (add_process-Tracks pid _ m refl))
        ])
        | inr e ↦ rw e (skipped-Tracks text m (λ k. rw (numeric ∙ e) refl))
      ]

  then_collect-Tracks :
      (text : Bytes) (entries : List Bytes) (m : Snapshots W) (r : Collected W)
      → Tracks (λ k. spells k text) m r
      → ((m' : Snapshots W)
          → Tracks (λ k. any (spells k) entries) m' (collect_loop page_size files entries m'))
      → Tracks
          (λ k. any (spells k) (text ∷ entries))
          m
          (then_collect r (collect_loop page_size files entries))
  then_collect-Tracks text entries m (collected m') h later =
      behind (collect_loop page_size files entries m') (later m')
    where
      behind :
          (r : Collected W)
          → Tracks (λ k. any (spells k) entries) m' r
          → Tracks (λ k. any (spells k) (text ∷ entries)) m r
      behind (collected m'') k = (
        λ pid.
            k.0 pid
            ∙ ap (updated pid (any (spells pid) entries)) (h.0 pid)
            ∙ updated-updated pid (spells pid text) (any (spells pid) entries) (find ◌==◌ pid m),
        λ pid at. elim (Bool-cases (spells pid text)) [
          | inl first ↦ h.1 pid first
          | inr other ↦ k.1 pid (rw other at at)
        ],
      )
      behind thrown (pid, holds, e) = (pid, ground (arith, holds), e)
  then_collect-Tracks text entries m thrown (pid, holds, e) later = (pid, ground (arith, holds), e)

  collect_loop-Tracks :
      (entries : List Bytes) (m : Snapshots W)
      → Tracks (λ k. any (spells k) entries) m (collect_loop page_size files entries m)
  unfolding collect_loop
  collect_loop-Tracks [] m = (λ k. refl, λ k at. absurd (cc at))
  collect_loop-Tracks (text ∷ entries) m =
      then_collect-Tracks text entries m (collect_round page_size files text m)
        (collect_round-Tracks text m) (collect_loop-Tracks entries)

  -- What the snapshot holds, by what was listed.
  abbrev pub IsListing : List Bytes → Collected W → Type 0
  IsListing entries (collected m) =
      IsMap m
      × ((pid : ℕ) → find ◌==◌ pid m ≡ (if any (spells pid) entries then entry_of pid else none))
      × ThrowsNone files (λ pid. any (spells pid) entries)
  IsListing entries thrown = Throws files (λ pid. any (spells pid) entries)

  listed :
      (entries : List Bytes) (r : Collected W)
      → IsEach (λ e. Unit) r
      → Tracks (λ k. any (spells k) entries) [] r
      → IsListing entries r
  unfolding find
  listed entries (collected m) each h =
      (each.0, λ pid. h.0 pid ∙ alone pid (any (spells pid) entries), h.1)
    where
      alone : (pid : ℕ) (b : Bool) → updated pid b none ≡ (if b then entry_of pid else none)
      alone pid false = refl
      alone pid true = itself (entry_of pid)
        where
          itself : (e : Option (ProcessSnapshot W)) → or_else e none ≡ e
          itself none = refl
          itself (some p) = refl
  listed entries thrown each h = h

module _ (W : Type 0) ⦃d : Double W⦄ (page_size : ℤ) (files : ℕ → ProcessFiles) where
  -- The snapshot of all processes has one entry at most for each number, and for a number it has exactly the
  -- one that `stat`, `status`, `fd` and `io` of this process give, if a name in /proc spells the number and
  -- its `stat` can be read, and none otherwise; and an exception comes exactly if the `stat` of a process that
  -- is named in /proc makes its reader throw.
  pub collect_linux_process_snapshot-IsListing :
      (entries : List Bytes)
      → IsListing {W = W} page_size files entries
          (collect_linux_process_snapshot page_size files entries)
  unfolding collect_linux_process_snapshot
  collect_linux_process_snapshot-IsListing entries =
      listed page_size files entries _
        (collect_linux_process_snapshot-IsEach page_size files (λ e. Unit) (λ _ _ _ _ _. tt)
          entries)
        (collect_loop-Tracks page_size files entries [])
