-- ===== src/Config/Written.antt =====
-- A configuration as lines `key: value`.
use real_time_system_metrics.Base.{
  ℕ, ◌^◌, ◌<◌, ◌≡◌, ◌≢◌, refl, Bool, true, false, ◌||◌, List, [], ◌∷◌, some, Bytes, codes, bytes_eq,
  ◌==◌, All, All-mono, any, arith, ℤ, pos, negsuc, ltb_ℤ,
}
use real_time_system_metrics.CppStd.Chars.{is_space, is_digit}
use real_time_system_metrics.CppStd.Numbers.{to_string, int_to_string}
use real_time_system_metrics.CppStd.Printing.{IsIn, to_string-AreDigits, to_string-cons}
use real_time_system_metrics.Config.{AgentConfig}
use real_time_system_metrics.Config.Text.{trim, leading_spaces, parse_bool_text}
use real_time_system_metrics.Config.Numbers.{AreSolid, trim-solid, to_string-AreSolid}
use real_time_system_metrics.Config.Lines.{IsKeyByte, starts}
use real_time_system_metrics.Config.Yaml.{IsValueByte, IsKey, IsValue, AreLines}

abbrev pub bool_text : Bool → Bytes
bool_text true = codes "true"
bool_text false = codes "false"

abbrev pub lines_of : AgentConfig → List (Bytes × Bytes)
lines_of c =
    (codes "backend_url", c.backend_url)
    ∷ (codes "interval_seconds", int_to_string c.interval_seconds)
    ∷ (codes "backend_enabled", bool_text c.backend_enabled)
    ∷ (codes "queue_capacity", to_string c.queue_capacity)
    ∷ (codes "total_cpu", bool_text c.selection.total_cpu)
    ∷ (codes "per_core_cpu", bool_text c.selection.per_core_cpu)
    ∷ (codes "system_memory", bool_text c.selection.system_memory)
    ∷ (codes "top_processes", bool_text c.selection.top_processes)
    ∷ (codes "process_threads", bool_text c.selection.process_threads)
    ∷ (codes "process_io", bool_text c.selection.process_io)
    ∷ (codes "process_handles", bool_text c.selection.process_handles)
    ∷ []

-- A configuration that passes the checks, and whose URL can be written on a line.
pub record IsWritten (c : AgentConfig) : Type 0 where
  pub url : IsValue c.backend_url
  pub positive : ltb_ℤ (pos 0) c.interval_seconds ≡ true
  pub interval : IsIn 32 c.interval_seconds
  pub capacity : (0 < c.queue_capacity) × (c.queue_capacity < 2 ^ 63)

abbrev pub is_bad : ℕ → Bool
is_bad c = is_space c || c == b':' || c == b'"' || c == b'#'

key_bytes : (s : Bytes) → any is_bad s ≡ false → All IsKeyByte s
key_bytes [] h = tt
key_bytes (c ∷ s) h = (ground (arith, h), key_bytes s (ground (arith, h)))

pub value_bytes : (s : Bytes) → any is_bad s ≡ false → All IsValueByte s
value_bytes [] h = tt
value_bytes (c ∷ s) h = (ground (arith, h), value_bytes s (ground (arith, h)))

abbrev pub is_name : Bytes → Bool
is_name [] = true
is_name (c ∷ s) = any is_bad (c ∷ s)

pub name-IsKey : (key : Bytes) → is_name key ≡ false → IsKey key
name-IsKey [] h = absurd (cc h)
name-IsKey (c ∷ s) h = (λ e. absurd (cc e), key_bytes (c ∷ s) h)

bool_text-IsValue : (b : Bool) → IsValue (bool_text b)
unfolding trim leading_spaces
bool_text-IsValue true = (refl, value_bytes (codes "true") refl, refl)
bool_text-IsValue false = (refl, value_bytes (codes "false") refl, refl)

starts_of : (s : Bytes) → s ≢ [] → AreSolid s → starts s ≡ true
starts_of [] n h = absurd (n refl)
starts_of (c ∷ s) n (p, h) = rw p refl

to_string-IsValue : (n : ℕ) → IsValue (to_string n)
to_string-IsValue n =
    let (b, rest, q) = to_string-cons n in
    (
      starts_of (to_string n) (λ e. absurd (cc (q, e))) (to_string-AreSolid n),
      All-mono (λ c. is_digit c ≡ true) _ (to_string n) (λ c h. ground (arith, h))
          (to_string-AreDigits n),
      trim-solid (to_string n) (to_string-AreSolid n),
    )

pub parse_bool_text-bool_text : (b : Bool) → parse_bool_text (bool_text b) ≡ some b
unfolding parse_bool_text bytes_eq
parse_bool_text-bool_text true = refl
parse_bool_text-bool_text false = refl

int_to_string-IsValue : (z : ℤ) → ltb_ℤ (pos 0) z ≡ true → IsValue (int_to_string z)
unfolding int_to_string
int_to_string-IsValue (pos n) h = to_string-IsValue n
int_to_string-IsValue (negsuc n) h = absurd (ground (arith, h))

pub lines_of-AreLines : (c : AgentConfig) → IsWritten c → AreLines (lines_of c)
lines_of-AreLines c h =
    let flag = bool_text-IsValue in
    let s = c.selection in
    (
      (name-IsKey (codes "backend_url") refl, h.url),
      (
        (
          name-IsKey (codes "interval_seconds") refl,
          int_to_string-IsValue c.interval_seconds h.positive,
        ),
        (
          (name-IsKey (codes "backend_enabled") refl, flag c.backend_enabled),
          (
            (name-IsKey (codes "queue_capacity") refl, to_string-IsValue c.queue_capacity),
            (
              (name-IsKey (codes "total_cpu") refl, flag s.total_cpu),
              (
                (name-IsKey (codes "per_core_cpu") refl, flag s.per_core_cpu),
                (
                  (name-IsKey (codes "system_memory") refl, flag s.system_memory),
                  (
                    (name-IsKey (codes "top_processes") refl, flag s.top_processes),
                    (
                      (name-IsKey (codes "process_threads") refl, flag s.process_threads),
                      (
                        (name-IsKey (codes "process_io") refl, flag s.process_io),
                        ((name-IsKey (codes "process_handles") refl, flag s.process_handles), tt),
                      ),
                    ),
                  ),
                ),
              ),
            ),
          ),
        ),
      ),
    )
