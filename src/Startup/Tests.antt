-- ===== src/Startup/Tests.antt =====
-- Starts of `main`, and its theorems at concrete inputs.
use real_time_system_metrics.Base.{
  ◌≡◌, refl, false, List, [], ◌∷◌, Option, none, Bytes, codes, bytes_eq, pos,
}
use real_time_system_metrics.CppStd.Numbers.{stoi}
use real_time_system_metrics.Config.{AgentConfig, defaults}
use real_time_system_metrics.Startup.{
  running, returned_1, terminated, start_main, initial_config, initial_path,
}
use real_time_system_metrics.Startup.Args.{parsed, apply_args, scan_config}
use real_time_system_metrics.Startup.Options.{
  Flag, backend_url, interval, config_file, words, apply_flags, config_path, apply_args-words,
  scan_config-words,
}
use real_time_system_metrics.Startup.Valid.{loaded_config, ending_of_load, start_main-ending}

abbrev no_files : Bytes → Option Bytes
no_files path = none

abbrev five_seconds : List Bytes
five_seconds = codes "--interval" ∷ codes "5" ∷ codes "--no-backend" ∷ []

abbrev five_config : AgentConfig
five_config = record defaults { interval_seconds = pos 5; backend_enabled = false }

five_starts : (start_main none none five_seconds no_files).1 ≡ running five_config
unfolding start_main scan_config apply_args bytes_eq stoi
five_starts = refl

-- A negative interval is refused, and a word that is no number ends the process.
bad_intervals :
    ((start_main none none (codes "--interval" ∷ codes "-5" ∷ []) no_files).1 ≡ returned_1)
    × ((start_main none none (codes "--interval" ∷ codes "soon" ∷ []) no_files).1 ≡ terminated)
unfolding start_main scan_config apply_args bytes_eq stoi
bad_intervals = (refl, refl)

-- The two loops over the arguments disagree on a value that is spelled `--config`: the second takes it
-- for the URL, and the first loads the file behind it.
loops_disagree :
    let args = codes "--backend-url" ∷ codes "--config" ∷ codes "x" ∷ [] in
    (scan_config args [] ≡ codes "x")
    × (apply_args args defaults ≡ parsed (record defaults { backend_url = codes "--config" }))
unfolding scan_config apply_args bytes_eq
loops_disagree = (refl, refl)

abbrev flags : List Flag
flags = backend_url (codes "http://b:1") ∷ config_file (codes "a.json") ∷ interval (codes "7") ∷ []

apply_args-words_example : apply_args (words flags) defaults ≡ apply_flags flags defaults
apply_args-words_example = apply_args-words flags defaults

scan_config-words_example : scan_config (words flags) [] ≡ config_path flags []
scan_config-words_example = scan_config-words flags [] (λ e. cc, (tt, (λ e. cc, tt)))

start_main-ending_example :
    (start_main none none five_seconds no_files).1
    ≡ ending_of_load five_seconds (
        loaded_config no_files (initial_config none) (scan_config five_seconds (initial_path none)))
start_main-ending_example = start_main-ending none none five_seconds no_files
