-- ===== src/Config/Tests.antt =====
-- Runs of the configuration file's reader, and its theorems at concrete inputs.
use real_time_system_metrics.Base.{
  true, List, ◌∷◌, ◌||◌, All, any, ◌==◌, ◌≡◌, refl, false, [], some, Bytes, codes, arith, pos,
  bytes_eq,
}
use real_time_system_metrics.Config.{
  AgentConfig, defaults, apply_all, apply_int, apply_bool, apply_size, apply_string,
  load_agent_config_file,
}
use real_time_system_metrics.Config.Valid.{LoadResult, load_agent_config_file-LoadResult}
use real_time_system_metrics.Config.Text.{
  trim, leading_spaces, parse_bool_text, parse_int_text, parse_size_text,
}
use real_time_system_metrics.Config.Written.{lines_of, IsWritten, name-IsKey, value_bytes}
use real_time_system_metrics.Config.RoundTrip.{load_agent_config_file-yaml}
use real_time_system_metrics.Config.Yaml.{
  yaml, value_of, IsKey, IsValueByte, AreLines, extract_value-yaml,
}
use real_time_system_metrics.Config.Extract.{extract_value}
use real_time_system_metrics.Selection.{default_selection}

abbrev json_text : Bytes
json_text =
    codes
      "{\n  \"backend_url\": \"http://b:1\",\n  \"backend_enabled\": off,\n  \"interval_seconds\": 5,\n  \"queue_capacity\": 8,\n  \"metrics\": {\n    \"total_cpu\": No\n  }\n}\n"

abbrev yaml_text : Bytes
yaml_text =
    codes
      "backend_url: http://b:1 # here\nbackend_enabled: off\ninterval_seconds: 5\nqueue_capacity: 8\nmetrics:\n  total_cpu: No\n"

abbrev loaded : AgentConfig
loaded = record {
  backend_url = codes "http://b:1";
  interval_seconds = pos 5;
  backend_enabled = false;
  queue_capacity = 8;
  selection = record default_selection { total_cpu = false };
}

json_loads : apply_all json_text defaults ≡ loaded
unfolding apply_all apply_int apply_bool apply_size apply_string extract_value parse_bool_text
    parse_int_text parse_size_text bytes_eq
json_loads = refl

yaml_loads : apply_all yaml_text defaults ≡ loaded
unfolding apply_all apply_int apply_bool apply_size apply_string extract_value parse_bool_text
    parse_int_text parse_size_text bytes_eq
yaml_loads = refl

load_agent_config_file-LoadResult_example :
    LoadResult
      (codes "a.json")
      defaults
      []
      (some json_text)
      (load_agent_config_file (some json_text) (codes "a.json") defaults [])
load_agent_config_file-LoadResult_example =
    load_agent_config_file-LoadResult (some json_text) (codes "a.json") defaults [] (omega arith)

abbrev lines : List (Bytes × Bytes)
lines = (codes "interval_seconds", codes "5") ∷ (codes "queue_capacity", codes "8") ∷ []

queue_capacity-IsKey : IsKey (codes "queue_capacity")
queue_capacity-IsKey = name-IsKey (codes "queue_capacity") refl

lines-AreLines : AreLines lines
unfolding trim leading_spaces
lines-AreLines = (
  (name-IsKey (codes "interval_seconds") refl, (refl, value_bytes (codes "5") refl, refl)),
  ((queue_capacity-IsKey, (refl, value_bytes (codes "8") refl, refl)), tt),
)

extract_value-yaml_example :
    extract_value (yaml lines) (codes "queue_capacity") ≡ value_of (codes "queue_capacity") lines
extract_value-yaml_example =
    extract_value-yaml (codes "queue_capacity") lines queue_capacity-IsKey lines-AreLines

loaded-IsWritten : IsWritten loaded
unfolding trim leading_spaces
loaded-IsWritten = record {
  url = (refl, url_bytes (codes "http://b:1") refl, refl);
  positive = refl;
  interval = (refl, refl);
  capacity = (omega arith, omega arith);
}
  where
    url_bytes :
        (s : Bytes) → any (λ c. c == b'\n' || c == b'#' || c == b'"') s ≡ false → All IsValueByte s
    url_bytes [] h = tt
    url_bytes (c ∷ s) h = (ground (arith, h), url_bytes s (ground (arith, h)))

load_agent_config_file-yaml_example :
    load_agent_config_file (some (yaml (lines_of loaded))) (codes "a.yaml") defaults []
    ≡ record { success = true; config = loaded; error_message = [] }
load_agent_config_file-yaml_example =
    load_agent_config_file-yaml loaded defaults (codes "a.yaml") [] loaded-IsWritten
