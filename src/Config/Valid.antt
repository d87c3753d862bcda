-- ===== src/Config/Valid.antt =====
-- Which loads succeed, and the invariant of a configuration.
use real_time_system_metrics.Base.{
  ℕ, suc, ◌<◌, ◌≡◌, refl, true, false, [], ◌∷◌, ◌++◌, Option, none, some, Bytes, codes, arith, ℤ,
  pos, ◌<ℤ◌,
}
use real_time_system_metrics.Config.{
  AgentConfig, apply_int, apply_size, apply_all, check_config, Loaded, load_agent_config_file,
}
use real_time_system_metrics.Config.Text.{parse_size_text, positive_size}

pub record IsValid (c : AgentConfig) : Type 0 where
  pub interval : pos 0 <ℤ c.interval_seconds
  pub capacity : 0 < c.queue_capacity

apply_int-pos :
    (content key : Bytes) (target : ℤ) → pos 0 <ℤ target → pos 0 <ℤ apply_int content key target
unfolding apply_int
apply_int-pos content key target h = ground arith

positive_size-pos : (z : Option ℤ) {n : ℕ} → positive_size z ≡ some n → 0 < n
unfolding positive_size
positive_size-pos (some (pos (suc n))) e = ground arith
positive_size-pos z e = cc

parse_size_text-pos : (raw : Bytes) {n : ℕ} → parse_size_text raw ≡ some n → 0 < n
unfolding parse_size_text
parse_size_text-pos raw e = positive_size-pos _ e

apply_size-pos : (content key : Bytes) (target : ℕ) → 0 < target → 0 < apply_size content key target
unfolding apply_size
apply_size-pos content key target h = grind (arith, parse_size_text-pos)

apply_all-IsValid : (content : Bytes) (c : AgentConfig) → IsValid c → IsValid (apply_all content c)
unfolding apply_all
apply_all-IsValid content c v = record {
  interval = apply_int-pos content _ _ v.interval;
  capacity = apply_size-pos content _ _ v.capacity;
}

check_config_of_IsValid :
    (c : AgentConfig) (error : Bytes)
    → IsValid c
    → check_config c error ≡ record { success = true; config = c; error_message = error }
unfolding check_config
check_config_of_IsValid c error v = ground (arith, v.interval, v.capacity)

-- What a load does to a valid configuration, by the text of the file: without a file, or with an empty
-- one, it fails and keeps the configuration; with any other text, however broken, it succeeds, leaves
-- the message alone, and the configuration is valid again.
abbrev pub LoadResult : Bytes → AgentConfig → Bytes → Option Bytes → Loaded → Type 0
LoadResult path c error none r =
    (r.success ≡ false)
    × (r.config ≡ c)
    × (r.error_message ≡ codes "Unable to open config file: " ++ path)
LoadResult path c error (some []) r =
    (r.success ≡ false)
    × (r.config ≡ c)
    × (r.error_message ≡ codes "Config file is empty: " ++ path)
LoadResult path c error (some (b ∷ text)) r =
    (r.success ≡ true)
    × (r.config ≡ apply_all (b ∷ text) c)
    × (r.error_message ≡ error)
    × IsValid r.config

-- From a valid configuration a load has the results that `LoadResult` lists: the two tests at the end
-- of `load_agent_config_file` never fail, and only a file that is missing or empty is refused.
pub load_agent_config_file-LoadResult :
    (file : Option Bytes) (path : Bytes) (c : AgentConfig) (error : Bytes)
    → IsValid c
    → LoadResult path c error file (load_agent_config_file file path c error)
unfolding load_agent_config_file
load_agent_config_file-LoadResult none path c error v = (refl, refl, refl)
load_agent_config_file-LoadResult (some []) path c error v = (refl, refl, refl)
load_agent_config_file-LoadResult (some (b ∷ text)) path c error v =
    let valid = apply_all-IsValid (b ∷ text) c v in
    rw (check_config_of_IsValid (apply_all (b ∷ text) c) error valid) (refl, refl, refl, valid)
