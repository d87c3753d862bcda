-- ===== src/Config/Text.antt =====
-- agent/src/agent_config.cpp: `trim` and the readers of a scalar.
use mathlib.Core.List.{reverse}
use real_time_system_metrics.Base.{
  ℕ, suc, ◌-◌, Bool, true, false, ◌||◌, [], ◌∷◌, Option, none, some, Bytes, codes, bytes_eq, leb,
  if◌then◌else◌, length, take, drop, ℤ, pos,
}
use real_time_system_metrics.CppStd.Chars.{is_space, to_lower}
use real_time_system_metrics.CppStd.Numbers.{stoi, stoll}

-- The index of the first byte that is no space, or the length.
unfoldable pub leading_spaces : Bytes → ℕ
leading_spaces [] = 0
leading_spaces (c ∷ s) = if is_space c then suc (leading_spaces s) else 0

unfoldable pub trim : Bytes → Bytes
unfolding leading_spaces
trim value =
    let begin = leading_spaces value in
    let end_of = length value - leading_spaces (reverse value) in
    if leb end_of begin then [] else take (end_of - begin) (drop begin value)

unfoldable pub parse_bool_text : Bytes → Option Bool
unfolding trim to_lower
parse_bool_text value =
    let normalized = to_lower (trim value) in
    if bytes_eq normalized (codes "true")
      || bytes_eq normalized (codes "1")
      || bytes_eq normalized (codes "yes")
      || bytes_eq normalized (codes "on")
    then some true
    else if bytes_eq normalized (codes "false")
        || bytes_eq normalized (codes "0")
        || bytes_eq normalized (codes "no")
        || bytes_eq normalized (codes "off")
    then some false
    else none

unfoldable pub parse_int_text : Bytes → Option ℤ
unfolding stoi trim
parse_int_text value = stoi (trim value)

-- The size of a `long long` that `stoll` returned, if it is positive.
unfoldable pub positive_size : Option ℤ → Option ℕ
positive_size (some (pos (suc n))) = some (suc n)
positive_size _ = none

unfoldable pub parse_size_text : Bytes → Option ℕ
unfolding stoll trim positive_size
parse_size_text value = positive_size (stoll (trim value))
