-- ===== src/Override.antt =====
-- agent/src/main.cpp: the `--metrics` option, `split_csv` and `apply_metrics_override`.
pub mod Flags
pub mod Spec
pub mod Tests
use real_time_system_metrics.Base.{
  Bool, true, false, List, [], ◌∷◌, ◌++◌, Bytes, codes, bytes_eq, if◌then◌else◌,
}
use real_time_system_metrics.CppStd.Chars.{to_lower}
use real_time_system_metrics.CppStd.Getline.{getlines}
use real_time_system_metrics.Selection.{MetricsSelection, default_selection}

-- The loop over the tokens, with the tokens kept so far.
unfoldable pub keep_tokens : List Bytes → List Bytes → List Bytes
keep_tokens [] tokens = tokens
keep_tokens ([] ∷ rest) tokens = keep_tokens rest tokens
keep_tokens ((c ∷ token) ∷ rest) tokens = keep_tokens rest (tokens ++ (c ∷ token) ∷ [])

unfoldable pub split_csv : Bytes → List Bytes
unfolding keep_tokens getlines
split_csv input = keep_tokens (getlines b',' input) []

-- What the call leaves behind: its result, `selection` and `error`.
pub record Outcome : Type 0 where
  pub accepted : Bool
  pub selection : MetricsSelection
  pub error : Bytes

abbrev pub no_selection : MetricsSelection
no_selection = record {
  total_cpu = false;
  per_core_cpu = false;
  system_memory = false;
  top_processes = false;
  process_threads = false;
  process_io = false;
  process_handles = false;
}

-- The statements behind the loop.
unfoldable pub finish : MetricsSelection → Bytes → Outcome
finish updated error = record {
  accepted = true;
  selection =
      if updated.top_processes
      then updated
      else record updated { process_threads = false; process_io = false; process_handles = false };
  error = error;
}

-- One token that is not "all", by its text in lower case; the flag says that it is known.
unfoldable pub select_token : Bytes → MetricsSelection → Bool × MetricsSelection
select_token token updated =
    if bytes_eq token (codes "total_cpu")
    then (true, record updated { total_cpu = true })
    else if bytes_eq token (codes "per_core_cpu")
    then (true, record updated { per_core_cpu = true })
    else if bytes_eq token (codes "system_memory")
    then (true, record updated { system_memory = true })
    else if bytes_eq token (codes "top_processes")
    then (true, record updated { top_processes = true })
    else if bytes_eq token (codes "process_threads")
    then (true, record updated { process_threads = true; top_processes = true })
    else if bytes_eq token (codes "process_io")
    then (true, record updated { process_io = true; top_processes = true })
    else if bytes_eq token (codes "process_handles")
    then (true, record updated { process_handles = true; top_processes = true })
    else (false, updated)

-- The loop over the tokens: `updated` is its local, `selection` and `error` are the caller's.
unfoldable pub override_loop : List Bytes → MetricsSelection → MetricsSelection → Bytes → Outcome
unfolding select_token finish to_lower
override_loop [] updated selection error = finish updated error
override_loop (raw_token ∷ tokens) updated selection error =
    let token = to_lower raw_token in
    let (known, next) = select_token token updated in
    let rest = override_loop tokens next selection error in
    if bytes_eq token (codes "all")
    then record { accepted = true; selection = default_selection; error = error }
    else if known
    then rest
    else record {
      accepted = false;
      selection = selection;
      error = codes "Unknown metric selector: " ++ raw_token;
    }

unfoldable pub apply_metrics_override : Bytes → MetricsSelection → Bytes → Outcome
unfolding override_loop split_csv
apply_metrics_override csv selection error =
    override_loop (split_csv csv) no_selection selection error
