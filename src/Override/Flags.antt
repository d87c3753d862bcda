-- ===== src/Override/Flags.antt =====
-- What a `--metrics` list asks for, token by token.
use real_time_system_metrics.Base.{
  Bool, true, false, ◌||◌, List, [], ◌∷◌, Bytes, codes, bytes_eq, bytes_eq_sound, Bool-cases, inl,
  inr, ◌≡◌, any, All, All-of_any, arith,
}
use real_time_system_metrics.CppStd.Chars.{to_lower}
use real_time_system_metrics.Selection.{MetricsSelection}
use real_time_system_metrics.Override.{select_token, finish}

-- Some token spells the name, in any case of letters.
abbrev pub asks : Bytes → List Bytes → Bool
asks name = any λ t. bytes_eq (to_lower t) name

-- What the tokens ask for, on top of a selection.
abbrev pub asked : MetricsSelection → List Bytes → MetricsSelection
asked s ts = record {
  total_cpu = s.total_cpu || asks (codes "total_cpu") ts;
  per_core_cpu = s.per_core_cpu || asks (codes "per_core_cpu") ts;
  system_memory = s.system_memory || asks (codes "system_memory") ts;
  top_processes =
      s.top_processes
      || asks (codes "top_processes") ts
      || asks (codes "process_threads") ts
      || asks (codes "process_io") ts
      || asks (codes "process_handles") ts;
  process_threads = s.process_threads || asks (codes "process_threads") ts;
  process_io = s.process_io || asks (codes "process_io") ts;
  process_handles = s.process_handles || asks (codes "process_handles") ts;
}

-- The seven names of metrics.
abbrev pub names : List Bytes
names =
    codes "total_cpu"
    ∷ codes "per_core_cpu"
    ∷ codes "system_memory"
    ∷ codes "top_processes"
    ∷ codes "process_threads"
    ∷ codes "process_io"
    ∷ codes "process_handles"
    ∷ []

abbrev pub is_known : Bytes → Bool
is_known t = any (bytes_eq t) names

-- No process metric is selected without the processes.
pub record IsCoherent (s : MetricsSelection) : Type 0 where
  pub threads : s.process_threads ≡ true → s.top_processes ≡ true
  pub io : s.process_io ≡ true → s.top_processes ≡ true
  pub handles : s.process_handles ≡ true → s.top_processes ≡ true

pub select_token-known : (t : Bytes) (u : MetricsSelection) → (select_token t u).0 ≡ is_known t
unfolding select_token
select_token-known t u = ground arith

pub select_token-IsCoherent :
    (t : Bytes) (u : MetricsSelection) → IsCoherent u → IsCoherent (select_token t u).1
unfolding select_token
select_token-IsCoherent t u c = ground arith

pub finish_of_IsCoherent :
    (u : MetricsSelection) (error : Bytes)
    → IsCoherent u
    → finish u error ≡ record { accepted = true; selection = u; error = error }
unfolding finish
finish_of_IsCoherent u error c = ground arith

bytes_eq-false : (t a b : Bytes) → bytes_eq t a ≡ true → bytes_eq a b ≡ false → bytes_eq t b ≡ false
bytes_eq-false t a b e h = rw (bytes_eq_sound t a e) h

-- `asked u (t ∷ ts)`, by the text `x` of `t` in lower case
abbrev asked_next : MetricsSelection → Bytes → List Bytes → MetricsSelection
asked_next s x ts = record {
  total_cpu = s.total_cpu || (bytes_eq x (codes "total_cpu") || asks (codes "total_cpu") ts);
  per_core_cpu =
      s.per_core_cpu || (bytes_eq x (codes "per_core_cpu") || asks (codes "per_core_cpu") ts);
  system_memory =
      s.system_memory || (bytes_eq x (codes "system_memory") || asks (codes "system_memory") ts);
  top_processes =
      s.top_processes
      || (bytes_eq x (codes "top_processes") || asks (codes "top_processes") ts)
      || (bytes_eq x (codes "process_threads") || asks (codes "process_threads") ts)
      || (bytes_eq x (codes "process_io") || asks (codes "process_io") ts)
      || (bytes_eq x (codes "process_handles") || asks (codes "process_handles") ts);
  process_threads =
      s.process_threads
      || (bytes_eq x (codes "process_threads") || asks (codes "process_threads") ts);
  process_io = s.process_io || (bytes_eq x (codes "process_io") || asks (codes "process_io") ts);
  process_handles =
      s.process_handles
      || (bytes_eq x (codes "process_handles") || asks (codes "process_handles") ts);
}

-- At each of the names the two sides are compared by evaluation.
abbrev Agrees : MetricsSelection → List Bytes → Bytes → Type 0
Agrees u ts x = asked (select_token x u).1 ts ≡ asked_next u x ts

Agrees-names : (u : MetricsSelection) (ts : List Bytes) → All (Agrees u ts) names
unfolding select_token bytes_eq
Agrees-names u ts = ground arith

asked-select_token_unknown :
    (x : Bytes) (u : MetricsSelection) (ts : List Bytes) → is_known x ≡ false → Agrees u ts x
unfolding select_token
asked-select_token_unknown x u ts h = ground arith

pub asked-select_token :
    (x : Bytes) (u : MetricsSelection) (ts : List Bytes)
    → asked (select_token x u).1 ts ≡ asked_next u x ts
asked-select_token x u ts = elim (Bool-cases (is_known x)) [
  | inl e ↦ All-of_any (Agrees u ts) x names (Agrees-names u ts) e
  | inr e ↦ asked-select_token_unknown x u ts e
]
