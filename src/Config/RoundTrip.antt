-- ===== src/Config/RoundTrip.antt =====
-- A configuration that is written as lines `key: value` is loaded as it was.
use real_time_system_metrics.Base.{
  ℕ, ◌^◌, ◌<◌, ◌≡◌, refl, ap, ◌∙◌, Bool, true, false, [], ◌∷◌, some, Bytes, codes, bytes_eq, ◌==◌,
  arith, ℤ, pos, ltb_ℤ, leb_ℤ,
}
use real_time_system_metrics.CppStd.Numbers.{to_string, int_to_string}
use real_time_system_metrics.CppStd.Printing.{IsIn}
use real_time_system_metrics.Config.{
  AgentConfig, apply_bool, apply_int, apply_size, apply_string, apply_all, check_config,
  load_agent_config_file,
}
use real_time_system_metrics.Config.Extract.{extract_value}
use real_time_system_metrics.Config.Numbers.{
  parse_int_text-int_to_string, parse_size_text-to_string,
}
use real_time_system_metrics.Config.Yaml.{yaml, value_of, IsValue, extract_value-yaml}
use real_time_system_metrics.Config.Written.{
  bool_text, lines_of, IsWritten, is_name, name-IsKey, lines_of-AreLines, parse_bool_text-bool_text,
}

-- What is found under a key of the file.
module _ (content key : Bytes) where
  apply_bool-found :
      (b target : Bool)
      → extract_value content key ≡ some (bool_text b)
      → apply_bool content key target ≡ b
  unfolding apply_bool
  apply_bool-found b target e = rw (apply_bool, e) (rw (parse_bool_text-bool_text b) refl)

  apply_int-found :
      (z target : ℤ)
      → IsIn 32 z
      → ltb_ℤ (pos 0) z ≡ true
      → extract_value content key ≡ some (int_to_string z)
      → apply_int content key target ≡ z
  unfolding apply_int
  apply_int-found z target h p e =
      rw (apply_int, e) (rw (parse_int_text-int_to_string z h) (rw p refl))

  apply_size-found :
      (n target : ℕ)
      → 0 < n
      → n < 2 ^ 63
      → extract_value content key ≡ some (to_string n)
      → apply_size content key target ≡ n
  unfolding apply_size
  apply_size-found n target p h e = rw (apply_size, e) (rw (parse_size_text-to_string n p h) refl)

  apply_string-found :
      (v target : Bytes)
      → IsValue v
      → extract_value content key ≡ some v
      → apply_string content key target ≡ v
  unfolding apply_string
  apply_string-found [] target h e = absurd (cc h.0)
  apply_string-found (c ∷ v) target h e = rw (apply_string, e) (rw h.2 refl)

-- Each field by itself.
apply_all-fields :
    (content : Bytes) (c before : AgentConfig)
    → apply_string content (codes "backend_url") before.backend_url ≡ c.backend_url
    → apply_bool content (codes "backend_enabled") before.backend_enabled ≡ c.backend_enabled
    → apply_int content (codes "interval_seconds") before.interval_seconds ≡ c.interval_seconds
    → apply_size content (codes "queue_capacity") before.queue_capacity ≡ c.queue_capacity
    → apply_bool content (codes "total_cpu") before.selection.total_cpu ≡ c.selection.total_cpu
    → apply_bool content (codes "per_core_cpu") before.selection.per_core_cpu
      ≡ c.selection.per_core_cpu
    → apply_bool content (codes "system_memory") before.selection.system_memory
      ≡ c.selection.system_memory
    → apply_bool content (codes "top_processes") before.selection.top_processes
      ≡ c.selection.top_processes
    → apply_bool content (codes "process_threads") before.selection.process_threads
      ≡ c.selection.process_threads
    → apply_bool content (codes "process_io") before.selection.process_io ≡ c.selection.process_io
    → apply_bool content (codes "process_handles") before.selection.process_handles
      ≡ c.selection.process_handles
    → apply_all content before ≡ c
unfolding apply_all
apply_all-fields content c before u b i q e0 e1 e2 e3 e4 e5 e6 =
    rw (apply_all, u, b, i, q, e0, e1, e2, e3, e4, e5, e6) refl

module _ (c before : AgentConfig) (h : IsWritten c) where
  found_at :
      (key v : Bytes)
      → is_name key ≡ false
      → value_of key (lines_of c) ≡ some v
      → extract_value (yaml (lines_of c)) key ≡ some v
  found_at key v n e =
      extract_value-yaml key (lines_of c) (name-IsKey key n) (lines_of-AreLines c h) ∙ e

  flag_at :
      (key : Bytes) (b target : Bool)
      → is_name key ≡ false
      → value_of key (lines_of c) ≡ some (bool_text b)
      → apply_bool (yaml (lines_of c)) key target ≡ b
  flag_at key b target n e =
      apply_bool-found (yaml (lines_of c)) key b target (found_at key (bool_text b) n e)

  apply_all-written : apply_all (yaml (lines_of c)) before ≡ c
  unfolding bytes_eq
  apply_all-written =
      let content = yaml (lines_of c) in
      let s = c.selection in
      let old = before.selection in
      apply_all-fields content c before
        (apply_string-found content (codes "backend_url") c.backend_url _ h.url
          (found_at (codes "backend_url") _ refl refl))
        (flag_at (codes "backend_enabled") c.backend_enabled _ refl refl)
        (apply_int-found content (codes "interval_seconds") c.interval_seconds _ h.interval
          h.positive (found_at (codes "interval_seconds") _ refl refl))
        (apply_size-found content (codes "queue_capacity") c.queue_capacity _ h.capacity.0
          h.capacity.1 (found_at (codes "queue_capacity") _ refl refl))
        (flag_at (codes "total_cpu") s.total_cpu old.total_cpu refl refl)
        (flag_at (codes "per_core_cpu") s.per_core_cpu old.per_core_cpu refl refl)
        (flag_at (codes "system_memory") s.system_memory old.system_memory refl refl)
        (flag_at (codes "top_processes") s.top_processes old.top_processes refl refl)
        (flag_at (codes "process_threads") s.process_threads old.process_threads refl refl)
        (flag_at (codes "process_io") s.process_io old.process_io refl refl)
        (flag_at (codes "process_handles") s.process_handles old.process_handles refl refl)

-- The two checks pass.
check_config-written :
    (c : AgentConfig) (message : Bytes)
    → IsWritten c
    → check_config c message ≡ record { success = true; config = c; error_message = message }
unfolding check_config
check_config-written c message h =
    let positive = h.positive in
    let capacity = h.capacity.0 in
    let a : leb_ℤ c.interval_seconds (pos 0) ≡ false = ground (arith, positive) in
    let b : (c.queue_capacity == 0) ≡ false = ground (arith, capacity) in
    rw (check_config, a, b) refl

-- A configuration that is written as lines `key: value` is loaded as it was, whatever the configuration
-- before the load, if its interval and its queue capacity are positive and in range, and its URL is not
-- empty and has no spaces around it, line feeds, `#` and quotes.
pub load_agent_config_file-yaml :
    (c before : AgentConfig) (path message : Bytes)
    → IsWritten c
    → load_agent_config_file (some (yaml (lines_of c))) path before message
      ≡ record { success = true; config = c; error_message = message }
unfolding load_agent_config_file
load_agent_config_file-yaml c before path message h =
    ap (λ z. check_config z message) (apply_all-written c before h)
    ∙ check_config-written c message h
