-- ===== src/Windows/Names.antt =====
-- agent/src/metrics_collector.cpp, under `_WIN32`: `process_name_to_utf8`, with and without UNICODE.
use real_time_system_metrics.Base.{
  ℕ, zero, suc, ◌-◌, [], ◌∷◌, Option, none, some, Bytes, List, leb, if◌then◌else◌,
}

-- `resize` of a string: cut off, or filled up with zero bytes.
unfoldable pub resize : ℕ → Bytes → Bytes
resize zero s = []
resize (suc n) [] = 0 ∷ resize n []
resize (suc n) (c ∷ s) = c ∷ resize n s

-- `WideCharToMultiByte` from a text to a buffer of this size: what it returns (0 is an error), and the
-- buffer behind the call. Without a buffer, of size 0, it returns the size that is required.
abbrev pub Converter : Type 0
Converter = List ℕ → ℕ → ℕ × Bytes

-- The text may be a null pointer, or up to a terminating zero.
unfoldable pub process_name_to_utf8 : Converter → Option (List ℕ) → Bytes
unfolding resize
process_name_to_utf8 convert none = []
process_name_to_utf8 convert (some []) = []
process_name_to_utf8 convert (some (c ∷ name)) =
    let required = (convert (c ∷ name) 0).0 in
    let (written, utf8_name) = convert (c ∷ name) required in
    if leb required 1 then [] else if leb written 1 then [] else resize (written - 1) utf8_name

-- Without UNICODE the name is a text of bytes.
unfoldable pub process_name_of_bytes : Option Bytes → Bytes
process_name_of_bytes none = []
process_name_of_bytes (some name) = name
