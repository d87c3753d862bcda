-- ===== src/Logger/Lines.antt =====
-- A log entry is one line, and goes to the stream of its level.
use mathlib.Core.List.{flat_map}
use real_time_system_metrics.Base.{
  ℕ, ◌≡◌, ◌≢◌, ◌↔◌, ◌⊎◌, List, [], ◌∷◌, ◌++◌, Bytes, codes, bytes_eq_iff, arith, All, All-append,
  Lacks,
}
use real_time_system_metrics.Logger.{escape_char, escape_json_string, log_entry, log_event, cerr}
use real_time_system_metrics.Logger.RoundTrip.{
  written, written_tail, escape_json_string-flat_map, log_entry-written,
}

abbrev IsLineByte : ℕ → Type 0
IsLineByte c = (c ≢ b'\n') × (c ≢ b'\r')

abbrev IsLine : Bytes → Type 0
IsLine = All IsLineByte

IsLine-append : (s t : Bytes) → IsLine s → IsLine t → IsLine (s ++ t)
IsLine-append = All-append IsLineByte

IsLine-Lacks : (s : Bytes) → IsLine s → Lacks b'\n' s × Lacks b'\r' s
IsLine-Lacks [] h = (tt, tt)
IsLine-Lacks (c ∷ s) (h, hs) = let (a, b) = IsLine-Lacks s hs in ((h.0, a), (h.1, b))

escape_char-IsLine : (c : ℕ) → IsLine (escape_char c)
unfolding escape_char
escape_char-IsLine c = ground arith

flat_map-IsLine : (s : Bytes) → IsLine (flat_map escape_char s)
unfolding flat_map
flat_map-IsLine [] = tt
flat_map-IsLine (c ∷ s) = IsLine-append (escape_char c) _ (escape_char-IsLine c) (flat_map-IsLine s)

escape_json_string-IsLine : (s : Bytes) → IsLine (escape_json_string s)
escape_json_string-IsLine s = rw escape_json_string-flat_map (flat_map-IsLine s)

written-IsLine : (p : Bytes × Bytes) → IsLine (written p)
unfolding written
written-IsLine (key, value) =
    let quote : IsLineByte b'"' = omega arith in
    let colon : IsLineByte b':' = omega arith in
    IsLine-append (b'"' ∷ escape_json_string key ++ b'"' ∷ b':' ∷ b'"' ∷ escape_json_string value) _
      (IsLine-append (b'"' ∷ escape_json_string key) _ (quote, escape_json_string-IsLine key)
        (quote, (colon, (quote, escape_json_string-IsLine value))))
      (quote, tt)

written_tail-IsLine : (ps : List (Bytes × Bytes)) → IsLine (written_tail ps)
unfolding written_tail
written_tail-IsLine [] = omega arith
written_tail-IsLine (p ∷ ps) =
    (omega arith, IsLine-append (written p) _ (written-IsLine p) (written_tail-IsLine ps))

log_entry-IsLine :
    (now level event message : Bytes) (fields : List (Bytes × Bytes))
    → IsLine (log_entry now level event message fields)
log_entry-IsLine now level event message fields = rw log_entry-written (
  omega arith,
  IsLine-append (written (codes "ts", now)) _ (written-IsLine _) (written_tail-IsLine _),
)

-- What `log_event` writes is the entry, with no line feed and no carriage return in it whatever the
-- arguments hold; and it goes to `cerr` exactly when the level is "ERROR" or "WARN".
pub log_event-IsLine :
    (now level event message : Bytes) (fields : List (Bytes × Bytes))
    → let (output, line) = log_event now level event message fields in
      (line ≡ log_entry now level event message fields)
      × Lacks b'\n' line
      × Lacks b'\r' line
      × ((output ≡ cerr) ↔ ((level ≡ codes "ERROR") ⊎ (level ≡ codes "WARN")))
unfolding log_event
log_event-IsLine now level event message fields =
    let (a, b) = IsLine-Lacks _ (log_entry-IsLine now level event message fields) in
    ground (arith, a, b, bytes_eq_iff level (codes "ERROR"), bytes_eq_iff level (codes "WARN"))
