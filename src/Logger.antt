-- ===== src/Logger.antt =====
-- agent/src/structured_logger.cpp: one JSON object on one line for each event.
-- The clock and `strftime` are outside: the text of the time is an argument.
pub mod Fields
pub mod RoundTrip
pub mod Lines
pub mod Clock
pub mod Tests
use real_time_system_metrics.Base.{
  ℕ, ◌≡◌, ◌||◌, List, [], ◌∷◌, ◌++◌, Bytes, codes, bytes_eq, ◌==◌, if◌then◌else◌,
}

-- What one round of the loop of `escape_json_string` appends.
unfoldable pub escape_char : ℕ → Bytes
escape_char c =
    if c == b'\\'
    then codes "\\\\"
    else if c == b'"'
    then codes "\\\""
    else if c == b'\n'
    then codes "\\n"
    else if c == b'\r'
    then codes "\\r"
    else if c == b'\t'
    then codes "\\t"
    else c ∷ []

unfoldable pub escape_loop : Bytes → Bytes → Bytes
unfolding escape_char
escape_loop [] escaped = escaped
escape_loop (c ∷ input) escaped = escape_loop input (escaped ++ escape_char c)

unfoldable pub escape_json_string : Bytes → Bytes
unfolding escape_loop
escape_json_string input = escape_loop input []

-- The loop over `fields`, on the text written so far.
unfoldable pub write_fields : List (Bytes × Bytes) → Bytes → Bytes
unfolding escape_json_string
write_fields [] entry = entry
write_fields ((key, value) ∷ fields) entry = write_fields fields (
    entry
    ++ codes ",\""
    ++ escape_json_string key
    ++ codes "\":\""
    ++ escape_json_string value
    ++ codes "\"")

unfoldable pub log_entry : Bytes → Bytes → Bytes → Bytes → List (Bytes × Bytes) → Bytes
unfolding write_fields
log_entry now level event message fields =
    write_fields fields (
      codes "{"
      ++ (codes "\"ts\":\"" ++ escape_json_string now ++ codes "\",")
      ++ (codes "\"level\":\"" ++ escape_json_string level ++ codes "\",")
      ++ (codes "\"event\":\"" ++ escape_json_string event ++ codes "\",")
      ++ (codes "\"message\":\"" ++ escape_json_string message ++ codes "\""))
    ++ codes "}"

pub data Output : Type 0 where
  cerr cout : Output

-- The stream, and the line that is written to it before `std::endl`.
unfoldable pub log_event : Bytes → Bytes → Bytes → Bytes → List (Bytes × Bytes) → Output × Bytes
unfolding log_entry
log_event now level event message fields =
    let entry = log_entry now level event message fields in
    if bytes_eq level (codes "ERROR") || bytes_eq level (codes "WARN")
    then (cerr, entry)
    else (cout, entry)
