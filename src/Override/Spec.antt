-- ===== src/Override/Spec.antt =====
-- `apply_metrics_override` against a description of its result that has no loop state.
use mathlib.Core.Bool.{Bool, true, false, not, ◌||◌}
use real_time_system_metrics.Base.{
  List, [], ◌∷◌, ◌++◌, Bytes, codes, bytes_eq, Bool-cases, inl, inr, ◌≡◌, ◌∙◌, ap, arith, Option,
  none, some, if◌then◌else◌,
}
use real_time_system_metrics.CppStd.Chars.{to_lower}
use real_time_system_metrics.Selection.{MetricsSelection, default_selection}
use real_time_system_metrics.Override.{
  Outcome, no_selection, select_token, override_loop, split_csv, apply_metrics_override,
}
use real_time_system_metrics.Override.Flags.{
  asked, is_known, IsCoherent, select_token-known, select_token-IsCoherent, finish_of_IsCoherent,
  asked-select_token,
}

abbrev pub is_all : Bytes → Bool
is_all t = bytes_eq (to_lower t) (codes "all")

-- The first token that is "all" or that names no metric.
abbrev pub first_decisive : List Bytes → Option Bytes
first_decisive [] = none
first_decisive (t ∷ ts) =
    if is_all t || not (is_known (to_lower t)) then some t else first_decisive ts

-- The result, by that token.
abbrev pub decided : MetricsSelection → Option Bytes → MetricsSelection → Bytes → Outcome
decided all_asked none selection error = record {
  accepted = true;
  selection = all_asked;
  error = error;
}
decided all_asked (some t) selection error =
    if is_all t
    then record { accepted = true; selection = default_selection; error = error }
    else record {
      accepted = false;
      selection = selection;
      error = codes "Unknown metric selector: " ++ t;
    }

override_loop-decided :
    (tokens : List Bytes) (updated selection : MetricsSelection) (error : Bytes)
    → IsCoherent updated
    → override_loop tokens updated selection error
      ≡ decided (asked updated tokens) (first_decisive tokens) selection error
unfolding override_loop
override_loop-decided [] updated selection error c =
    rw (finish_of_IsCoherent updated error c) (ground arith)
override_loop-decided (t ∷ ts) updated selection error c =
    let lower = to_lower t in
    let next = (select_token lower updated).1 in
    let step : override_loop ts next selection error
        ≡ decided (asked updated (t ∷ ts)) (first_decisive ts) selection error =
      override_loop-decided ts next selection error (select_token-IsCoherent lower updated c)
      ∙ ap (λ s. decided s (first_decisive ts) selection error)
          (asked-select_token lower updated ts) in
    elim (Bool-cases (is_all t)) [
      | inl e ↦ rw e (rw e)
      | inr e ↦
          rw (e, select_token-known lower updated)
            (elim (Bool-cases (is_known lower)) [ inl k ↦ rw k step | inr k ↦ rw k (rw e) ])
    ]

-- The call returns what its first decisive token says, with no loop state: a token "all", in any case
-- of letters, selects everything; an unknown token fails and leaves the selection as it was, with
-- the token as it was written in the message; and if there is neither, exactly what the tokens ask
-- for is selected, the processes also for each process metric.
pub apply_metrics_override-decided :
    (csv : Bytes) (selection : MetricsSelection) (error : Bytes)
    → let tokens = split_csv csv in
      apply_metrics_override csv selection error
      ≡ decided (asked no_selection tokens) (first_decisive tokens) selection error
unfolding apply_metrics_override
apply_metrics_override-decided csv selection error =
    override_loop-decided (split_csv csv) no_selection selection error
      (record { threads = λ e. e; io = λ e. e; handles = λ e. e })
