-- ===== src/Logger/Tests.antt =====
-- The logger's theorems at concrete inputs.
use real_time_system_metrics.Base.{
  ◌≡◌, ◌↔◌, ◌⊎◌, refl, [], ◌∷◌, ◌++◌, some, none, Bytes, codes, Lacks, bytes_eq, bytes_lt,
}
use real_time_system_metrics.Base.{
  ◌<◌, ◌+◌, ◌/◌, ◌%◌, Bool, true, false, ◌==◌, if◌then◌else◌, ℕ, ℤ, pos, negsuc, Bytes, bytes_lt,
  arith, ◌≢◌,
}
use real_time_system_metrics.Logger.Clock.{
  Tm, IsDate, IsPutTime, two, date, now_utc_iso8601, now_utc_iso8601_order,
}
use real_time_system_metrics.Logger.{log_entry, log_event, cerr}
use real_time_system_metrics.Logger.Fields.{map_of}
use real_time_system_metrics.Logger.RoundTrip.{read_object, header, read_object-log_entry}
use real_time_system_metrics.Logger.Lines.{log_event-IsLine}

abbrev now : Bytes
now = codes "2024-02-11T00:00:00Z"

abbrev message : Bytes
message = codes "a \"quoted\"\nline\\"

entry_text :
    log_entry now (codes "WARN") (codes "e") message ((codes "k", codes "v") ∷ [])
    ≡ codes
        "{\"ts\":\"2024-02-11T00:00:00Z\",\"level\":\"WARN\",\"event\":\"e\",\"message\":\"a \\\"quoted\\\"\\nline\\\\\",\"k\":\"v\"}"
unfolding log_entry
entry_text = refl

-- A map is in order of its keys, and keeps the first of two values.
map_order :
    map_of ((codes "b", codes "1") ∷ (codes "a", codes "2") ∷ (codes "b", codes "3") ∷ []) []
    ≡ (codes "a", codes "2") ∷ (codes "b", codes "1") ∷ []
unfolding map_of bytes_eq bytes_lt
map_order = refl

-- A bell in the message makes the entry no JSON.
raw_bell : read_object (log_entry now (codes "WARN") (codes "e") (7 ∷ []) []) ≡ none
raw_bell = read_object-log_entry now (codes "WARN") (codes "e") (7 ∷ []) []

read_object-log_entry_example :
    read_object (log_entry now (codes "WARN") (codes "e") message ((codes "k", codes "v") ∷ []))
    ≡ some (header now (codes "WARN") (codes "e") message ++ (codes "k", codes "v") ∷ [])
read_object-log_entry_example =
    read_object-log_entry now (codes "WARN") (codes "e") message ((codes "k", codes "v") ∷ [])

log_event-IsLine_example :
    let (output, line) = log_event now (codes "WARN") (codes "e") message [] in
    (line ≡ log_entry now (codes "WARN") (codes "e") message [])
    × Lacks b'\n' line
    × Lacks b'\r' line
    × ((output ≡ cerr) ↔ ((codes "WARN" ≡ codes "ERROR") ⊎ (codes "WARN" ≡ codes "WARN")))
log_event-IsLine_example = log_event-IsLine now (codes "WARN") (codes "e") message []

-- The directives of the format, and every other byte as it is.
abbrev directive : ℕ → Tm → Bytes
directive c t =
    if c == b'Y'
    then two ((t.tm_year + 1900) / 100) ++ two ((t.tm_year + 1900) % 100)
    else if c == b'm'
    then two (t.tm_mon + 1)
    else if c == b'd'
    then two t.tm_mday
    else if c == b'H'
    then two t.tm_hour
    else if c == b'M'
    then two t.tm_min
    else if c == b'S'
    then two t.tm_sec
    else c ∷ []

unfoldable strftime : Bool → Bytes → Tm → Bytes
strftime percent [] t = []
strftime true (c ∷ f) t = directive c t ++ strftime false f t
strftime false (c ∷ f) t =
    let escaped = strftime true f t in
    let plain = strftime false f t in if c == b'%' then escaped else c ∷ plain

strftime_plain :
    (c : ℕ) (f : Bytes) (t : Tm) → c ≢ b'%' → strftime false (c ∷ f) t ≡ c ∷ strftime false f t
unfolding strftime
strftime_plain c f t h = let e : (c == b'%') ≡ false = ground arith in rw e refl

strftime-IsPutTime : IsPutTime (strftime false)
unfolding strftime
strftime-IsPutTime = record {
  at_end = λ t. refl;
  plain = strftime_plain;
  year = λ f t h. refl;
  month = λ f t h. refl;
  day = λ f t h. refl;
  hour = λ f t h. refl;
  minute = λ f t h. refl;
  second = λ f t h. refl;
}

-- The first hour of 1970.
abbrev gmtime : ℤ → Tm
gmtime time = record {
  tm_year = 70;
  tm_mon = 0;
  tm_mday = 1;
  tm_hour = 0;
  tm_min = seconds time / 60;
  tm_sec = seconds time % 60;
}
  where
    seconds : ℤ → ℕ
    seconds (pos n) = n
    seconds (negsuc n) = 0

first_minute : now_utc_iso8601 gmtime (strftime false) (pos 59) ≡ codes "1970-01-01T00:00:59Z"
unfolding now_utc_iso8601 strftime
first_minute = refl

gmtime-IsDate : (n : ℕ) → n < 3600 → IsDate (gmtime (pos n))
gmtime-IsDate n h = record {
  year = omega arith;
  month = omega arith;
  day = omega arith;
  hour = omega arith;
  minute = omega (arith, h);
  second = omega (arith, h);
}

now_utc_iso8601_order_example :
    bytes_lt
      (now_utc_iso8601 gmtime (strftime false) (pos 59))
      (now_utc_iso8601 gmtime (strftime false) (pos 61))
    ≡ bytes_lt (date (gmtime (pos 59))) (date (gmtime (pos 61)))
now_utc_iso8601_order_example =
    now_utc_iso8601_order gmtime (strftime false) (pos 59) (pos 61) strftime-IsPutTime
      (gmtime-IsDate 59 (omega arith)) (gmtime-IsDate 61 (omega arith))
