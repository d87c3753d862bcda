-- ===== src/Config/Extract.antt =====
-- agent/src/agent_config.cpp: how the value of a key is found in the text of the file.
use real_time_system_metrics.Base.{true, false, ◌||◌, not, List, [], ◌∷◌, ◌++◌, Option, Bytes, ◌==◌}
use mathlib.Core.Option
use real_time_system_metrics.CppStd.Chars.{is_space}
use real_time_system_metrics.CppStd.Regex.{
  Piece, one, many, captured, literal, or_else, regex_search, regex_search_line,
}
use real_time_system_metrics.Config.Text.{trim}

-- `"key"\s*:\s*`; the key holds no character that is special in a pattern.
abbrev pub json_key : Bytes → List Piece → List Piece
json_key key rest =
    literal (b'"' ∷ key ++ b'"' ∷ []) ++ many is_space ∷ (one λ c. c == b':') ∷ many is_space ∷ rest

-- `"([^"]*)"`
unfoldable pub extract_json_string : Bytes → Bytes → Option Bytes
unfolding regex_search
extract_json_string content key =
    regex_search
      (json_key key
        ((one λ c. c == b'"') ∷ captured (λ c. not (c == b'"')) false ∷ (one λ c. c == b'"') ∷ []))
      content

-- `([^,}\n]+)`, trimmed
unfoldable pub extract_json_scalar : Bytes → Bytes → Option Bytes
unfolding regex_search
extract_json_scalar content key = Option.map trim (
    regex_search
      (json_key key (captured (λ c. not (c == b',' || c == b'}' || c == b'\n')) true ∷ [])) content)

-- `(^|\n)\s*key\s*:\s*([^\n#]+)`, trimmed
unfoldable pub extract_yaml_scalar : Bytes → Bytes → Option Bytes
unfolding regex_search_line
extract_yaml_scalar content key = Option.map trim (
    regex_search_line
      (many is_space ∷ literal key
        ++ many is_space
          ∷ (one λ c. c == b':')
          ∷ many is_space
          ∷ captured (λ c. not (c == b'\n' || c == b'#')) true
          ∷ [])
      content)

unfoldable pub extract_value : Bytes → Bytes → Option Bytes
unfolding extract_json_string extract_json_scalar extract_yaml_scalar
extract_value content key =
    or_else (extract_json_string content key)
      (or_else (extract_json_scalar content key) (extract_yaml_scalar content key))
