-- ===== src/Startup/Options.antt =====
-- The command line as a list of options, and what `main` makes of its words.
use real_time_system_metrics.Base.{
  false, List, [], ◌∷◌, Option, none, some, Bytes, codes, bytes_eq, bytes_eq_iff, if◌then◌else◌, ℤ,
  ◌≡◌, ◌≢◌, refl, ◌∙◌, All, arith, Bool-cases, inl, inr, Option-cases,
}
use real_time_system_metrics.CppStd.Numbers.{stoi}
use real_time_system_metrics.Override.{apply_metrics_override}
use real_time_system_metrics.Config.{AgentConfig}
use real_time_system_metrics.Startup.Args.{
  scan_config, ArgsResult, parsed, invalid_metrics, thrown, apply_args,
}

pub data Flag : Type 0 where
  backend_url : Bytes → Flag
  interval : Bytes → Flag
  no_backend : Flag
  metrics : Bytes → Flag
  config_file : Bytes → Flag

-- The words of a command line.
unfoldable pub words : List Flag → List Bytes
words [] = []
words (backend_url u ∷ fs) = codes "--backend-url" ∷ u ∷ words fs
words (interval n ∷ fs) = codes "--interval" ∷ n ∷ words fs
words (no_backend ∷ fs) = codes "--no-backend" ∷ words fs
words (metrics csv ∷ fs) = codes "--metrics" ∷ csv ∷ words fs
words (config_file p ∷ fs) = codes "--config" ∷ p ∷ words fs

abbrev pub set_interval : Option ℤ → AgentConfig → ArgsResult
set_interval none c = thrown
set_interval (some z) c = parsed (record c { interval_seconds = z })

infixl 5 ◌>>=◌
abbrev pub ◌>>=◌ : ArgsResult → (AgentConfig → ArgsResult) → ArgsResult
parsed c >>= f = f c
invalid_metrics e >>= f = invalid_metrics e
thrown >>= f = thrown

-- What one option does to the configuration.
abbrev pub apply_flag : Flag → AgentConfig → ArgsResult
apply_flag (backend_url u) c = parsed (record c { backend_url = u })
apply_flag (interval n) c = set_interval (stoi n) c
apply_flag no_backend c = parsed (record c { backend_enabled = false })
apply_flag (metrics csv) c =
    let o = apply_metrics_override csv c.selection [] in
    if o.accepted then parsed (record c { selection = o.selection }) else invalid_metrics o.error
apply_flag (config_file p) c = parsed c

-- The options in turn, up to the first that fails.
unfoldable pub apply_flags : List Flag → AgentConfig → ArgsResult
apply_flags [] c = parsed c
apply_flags (f ∷ fs) c = apply_flag f c >>= apply_flags fs

-- The path of the last option `--config`.
unfoldable pub config_path : List Flag → Bytes → Bytes
config_path [] path = path
config_path (config_file p ∷ fs) path = config_path fs p
config_path (f ∷ fs) path = config_path fs path

apply_args_no_backend :
    (rest : List Bytes) (c : AgentConfig)
    → apply_args (codes "--no-backend" ∷ rest) c
      ≡ apply_args rest (record c { backend_enabled = false })
unfolding apply_args bytes_eq
apply_args_no_backend [] c = refl
apply_args_no_backend (value ∷ rest) c = refl

-- The second loop of `main` applies the options in turn, and stops at the first one that fails,
-- whatever texts stand as their values.
pub apply_args-words :
    (fs : List Flag) (c : AgentConfig) → apply_args (words fs) c ≡ apply_flags fs c
unfolding apply_args words apply_flags bytes_eq
apply_args-words [] c = refl
apply_args-words (backend_url u ∷ fs) c = apply_args-words fs (record c { backend_url = u })
apply_args-words (interval n ∷ fs) c = elim (Option-cases (stoi n)) [
  | inl e ↦ rw e
  | inr (z, e) ↦ rw e (apply_args-words fs (record c { interval_seconds = z }))
]
apply_args-words (no_backend ∷ fs) c =
    apply_args_no_backend (words fs) c ∙ apply_args-words fs (record c { backend_enabled = false })
apply_args-words (metrics csv ∷ fs) c =
    let o = apply_metrics_override csv c.selection [] in
    elim (Bool-cases o.accepted) [
      | inl e ↦ rw e (apply_args-words fs (record c { selection = o.selection }))
      | inr e ↦ rw e
    ]
apply_args-words (config_file p ∷ fs) c = apply_args-words fs c

-- No value of an option is spelled `--config`.
abbrev pub IsPlain : Flag → Type 0
IsPlain (backend_url u) = u ≢ codes "--config"
IsPlain (interval n) = n ≢ codes "--config"
IsPlain no_backend = Unit
IsPlain (metrics csv) = csv ≢ codes "--config"
IsPlain (config_file p) = Unit

scan_config_other :
    (arg : Bytes) (rest : List Bytes) (path : Bytes)
    → bytes_eq arg (codes "--config") ≡ false
    → scan_config (arg ∷ rest) path ≡ scan_config rest path
unfolding scan_config
scan_config_other arg [] path h = refl
scan_config_other arg (value ∷ rest) path h = rw (h, scan_config)

scan_config_value :
    (arg value : Bytes) (rest : List Bytes) (path : Bytes)
    → bytes_eq arg (codes "--config") ≡ false
    → value ≢ codes "--config"
    → scan_config (arg ∷ value ∷ rest) path ≡ scan_config rest path
scan_config_value arg value rest path h k =
    scan_config_other arg (value ∷ rest) path h
    ∙ scan_config_other value rest path (grind (arith, bytes_eq_iff value (codes "--config")))

scan_config_path :
    (value : Bytes) (rest : List Bytes) (path : Bytes)
    → scan_config (codes "--config" ∷ value ∷ rest) path ≡ scan_config rest value
unfolding scan_config bytes_eq
scan_config_path value rest path = refl

-- The first loop of `main` finds the path of the last `--config`, if no value of another option is
-- spelled `--config`.
pub scan_config-words :
    (fs : List Flag) (path : Bytes)
    → All IsPlain fs
    → scan_config (words fs) path ≡ config_path fs path
unfolding words config_path
scan_config-words [] path _ = unfold scan_config in refl
scan_config-words (backend_url u ∷ fs) path (p, ps) =
    scan_config_value (codes "--backend-url") u (words fs) path (unfold bytes_eq in refl) p
    ∙ scan_config-words fs path ps
scan_config-words (interval n ∷ fs) path (p, ps) =
    scan_config_value (codes "--interval") n (words fs) path (unfold bytes_eq in refl) p
    ∙ scan_config-words fs path ps
scan_config-words (no_backend ∷ fs) path (p, ps) =
    scan_config_other (codes "--no-backend") (words fs) path (unfold bytes_eq in refl)
    ∙ scan_config-words fs path ps
scan_config-words (metrics csv ∷ fs) path (p, ps) =
    scan_config_value (codes "--metrics") csv (words fs) path (unfold bytes_eq in refl) p
    ∙ scan_config-words fs path ps
scan_config-words (config_file f ∷ fs) path (p, ps) =
    scan_config_path f (words fs) path ∙ scan_config-words fs f ps
