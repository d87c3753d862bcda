-- ===== src/Startup/Args.antt =====
-- agent/src/main.cpp: the two loops over `argv`.
use real_time_system_metrics.Base.{
  true, false, List, [], ◌∷◌, none, some, Bytes, codes, bytes_eq, if◌then◌else◌, ℤ,
}
use real_time_system_metrics.CppStd.Numbers.{stoi}
use real_time_system_metrics.Override.{apply_metrics_override}
use real_time_system_metrics.Config.{AgentConfig}

-- The first loop: the value of the last `--config`.
unfoldable pub scan_config : List Bytes → Bytes → Bytes
scan_config [] path = path
scan_config (arg ∷ []) path = path
scan_config (arg ∷ value ∷ rest) path = elim (bytes_eq arg (codes "--config")) [
  | true ↦ scan_config rest value
  | false ↦ scan_config (value ∷ rest) path
]

-- The second loop ends with a configuration, with the error of `--metrics`, or with the exception of
-- `std::stoi`.
pub data ArgsResult : Type 0 where
  parsed : AgentConfig → ArgsResult
  invalid_metrics : Bytes → ArgsResult
  thrown : ArgsResult

unfoldable pub apply_args : List Bytes → AgentConfig → ArgsResult
apply_args [] config = parsed config
apply_args (arg ∷ []) config =
    if bytes_eq arg (codes "--no-backend")
    then parsed (record config { backend_enabled = false })
    else parsed config
apply_args (arg ∷ value ∷ rest) config =
    let with_url = apply_args rest (record config { backend_url = value }) in
    let with_interval = λ (n : ℤ). apply_args rest (record config { interval_seconds = n }) in
    let without_backend = apply_args (value ∷ rest) (record config { backend_enabled = false }) in
    let outcome = apply_metrics_override value config.selection [] in
    let with_metrics = apply_args rest (record config { selection = outcome.selection }) in
    let behind_config = apply_args rest config in
    let other = apply_args (value ∷ rest) config in
    if bytes_eq arg (codes "--backend-url")
    then with_url
    else if bytes_eq arg (codes "--interval")
    then elim (stoi value) [ none ↦ thrown | some n ↦ with_interval n ]
    else if bytes_eq arg (codes "--no-backend")
    then without_backend
    else if bytes_eq arg (codes "--metrics")
    then if outcome.accepted then with_metrics else invalid_metrics outcome.error
    else if bytes_eq arg (codes "--config")
    then behind_config
    else other
