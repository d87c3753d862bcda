-- ===== src/Logger/RoundTrip.antt =====
-- A reader of flat JSON objects whose values are strings, and what it reads from a log entry. As in JSON, a
-- control character inside a string is refused; bytes from 128 on are taken as they are.
use mathlib.Core.List.{flat_map}
use real_time_system_metrics.Base.{
  ℕ, zero, suc, ◌<◌, ◌≡◌, refl, sym, Bool, true, false, List, [], ◌∷◌, ◌++◌, append_assoc,
  append-nil, Option, none, some, Bytes, codes, ◌==◌, if◌then◌else◌, arith, length, length-append,
  ltb, leb, ◌||◌, ◌&&◌, ap, ◌∙◌, Bool-cases, inl, inr,
}
use real_time_system_metrics.Logger.{
  escape_char, escape_loop, escape_json_string, write_fields, log_entry,
}

-- What a JSON escape stands for.
abbrev pub unescaped : ℕ → Option ℕ
unescaped c =
    if c == b'\\'
    then some b'\\'
    else if c == b'"'
    then some b'"'
    else if c == b'n'
    then some b'\n'
    else if c == b'r'
    then some b'\r'
    else if c == b't'
    then some b'\t'
    else none

-- Reads the rest of a JSON string, up to its closing quote: what it stands for, and what follows.
-- The flag says that a backslash has been read.
unfoldable pub read_string : Bool → Bytes → Bytes → Option (Bytes × Bytes)
read_string pending out [] = none
read_string true out (c ∷ s) = elim (unescaped c) [
  | none ↦ none
  | some d ↦ read_string false (out ++ d ∷ []) s
]
read_string false out (c ∷ s) =
    let escape = read_string true out s in
    let plain = read_string false (out ++ c ∷ []) s in
    if c == b'"'
    then some (out, s)
    else if c == b'\\'
    then escape
    else if ltb c 32
    then none
    else plain

-- A byte whose escaped form may stand in a JSON string: no control character but those with an escape.
abbrev pub is_legal : ℕ → Bool
is_legal c = leb 32 c || c == b'\n' || c == b'\r' || c == b'\t'

abbrev pub are_legal : Bytes → Bool
are_legal [] = true
are_legal (c ∷ s) = is_legal c && are_legal s

abbrev pub are_legal_pairs : List (Bytes × Bytes) → Bool
are_legal_pairs [] = true
are_legal_pairs ((key, value) ∷ ps) = (are_legal key && are_legal value) && are_legal_pairs ps

pub escape_loop-flat_map : (s out : Bytes) → escape_loop s out ≡ out ++ flat_map escape_char s
unfolding escape_loop flat_map
escape_loop-flat_map [] out = sym (append-nil out)
escape_loop-flat_map (c ∷ s) out = simp (escape_loop-flat_map s, append_assoc)

pub escape_json_string-flat_map : (s : Bytes) → escape_json_string s ≡ flat_map escape_char s
unfolding escape_json_string
escape_json_string-flat_map s = escape_loop-flat_map s []

read_string-escape_char :
    (c : ℕ) (out rest : Bytes)
    → read_string false out (escape_char c ++ rest)
      ≡ (if is_legal c then read_string false (out ++ c ∷ []) rest else none)
unfolding read_string escape_char
read_string-escape_char c out rest = ground arith

read_string-flat_map :
    (s out rest : Bytes)
    → read_string false out (flat_map escape_char s ++ b'"' ∷ rest)
      ≡ (if are_legal s then some (out ++ s, rest) else none)
unfolding flat_map
read_string-flat_map [] out rest = unfold read_string in rw append-nil
read_string-flat_map (c ∷ s) out rest =
    ap (read_string false out) (append_assoc (escape_char c) (flat_map escape_char s) (b'"' ∷ rest))
    ∙ read_string-escape_char c out (flat_map escape_char s ++ b'"' ∷ rest)
    ∙ elim (Bool-cases (is_legal c)) [
      | inl e ↦ rw e (simp (append_assoc, read_string-flat_map s))
      | inr e ↦ rw e refl
    ]

-- The reader gets back a text from its escaped form, whatever follows the closing quote, or refuses it.
pub read_string-escape_json_string :
    (s rest : Bytes)
    → read_string false [] (escape_json_string s ++ b'"' ∷ rest)
      ≡ (if are_legal s then some (s, rest) else none)
read_string-escape_json_string s rest =
    rw escape_json_string-flat_map (read_string-flat_map s [] rest)

-- A byte that must stand next.
abbrev expect : ℕ → Bytes → Option Bytes
expect b [] = none
expect b (c ∷ s) = if c == b then some s else none

infixl 5 ◌>>=◌
abbrev ◌>>=◌ : {A B : Type 0} → Option A → (A → Option B) → Option B
none >>= f = none
some a >>= f = f a

-- `"key":"value"`
read_pair : Bytes → Option ((Bytes × Bytes) × Bytes)
read_pair s = do
  s₁ ← expect b'"' s
  (key, s₂) ← read_string false [] s₁
  s₃ ← expect b':' s₂
  s₄ ← expect b'"' s₃
  (value, s₅) ← read_string false [] s₄
  some ((key, value), s₅)

-- Pairs with commas between them, up to the closing brace at the end of the text.
read_pairs : ℕ → Bytes → Option (List (Bytes × Bytes))
read_pairs zero s = none
read_pairs (suc fuel) s = elim (read_pair s) [
  | none ↦ none
  | some (p, []) ↦ none
  | some (p, c ∷ rest) ↦ elim (c == b',') [
    | true ↦ elim (read_pairs fuel rest) [ none ↦ none | some ps ↦ some (p ∷ ps) ]
    | false ↦ if c == b'}' then (elim rest [ [] ↦ some (p ∷ []) | _ ↦ none ]) else none
  ]
]

-- The pairs of a flat JSON object; a text of n bytes has fewer than n pairs.
unfoldable pub read_object : Bytes → Option (List (Bytes × Bytes))
unfolding read_pairs read_pair
read_object [] = none
read_object (c ∷ s) = if c == b'{' then read_pairs (length s) s else none

-- `"key":"value"`, escaped
unfoldable pub written : Bytes × Bytes → Bytes
written (key, value) =
    b'"' ∷ escape_json_string key ++ b'"' ∷ b':' ∷ b'"' ∷ escape_json_string value ++ b'"' ∷ []

-- the pairs behind the first one, and the closing brace
unfoldable pub written_tail : List (Bytes × Bytes) → Bytes
written_tail [] = b'}' ∷ []
written_tail (p ∷ ps) = b',' ∷ written p ++ written_tail ps

read_pair-written :
    (key value rest : Bytes)
    → read_pair (written (key, value) ++ rest)
      ≡ (if are_legal key && are_legal value then some ((key, value), rest) else none)
unfolding read_pair written
read_pair-written key value rest = elim (Bool-cases (are_legal key)) [
  | inl e ↦ elim (Bool-cases (are_legal value)) [
    | inl f ↦ rw (e, f) (simp (append_assoc, read_string-escape_json_string, e, f))
    | inr f ↦ rw (e, f) (simp (append_assoc, read_string-escape_json_string, e, f))
  ]
  | inr e ↦ rw e (simp (append_assoc, read_string-escape_json_string, e))
]

read_pairs-pair :
    (fuel : ℕ) (p : Bytes × Bytes) (ps : List (Bytes × Bytes))
    → read_pair (written p ++ written_tail ps) ≡ some (p, written_tail ps)
    → ((q : Bytes × Bytes) (qs : List (Bytes × Bytes))
        → length qs < fuel
        → read_pairs fuel (written q ++ written_tail qs)
          ≡ (if are_legal_pairs (q ∷ qs) then some (q ∷ qs) else none))
    → length ps < suc fuel
    → read_pairs (suc fuel) (written p ++ written_tail ps)
      ≡ (if are_legal_pairs ps then some (p ∷ ps) else none)
unfolding read_pairs written_tail
read_pairs-pair fuel p [] e later h = rw (e, read_pairs)
read_pairs-pair fuel p (q ∷ qs) e later h =
    let rest = later q qs (omega (arith, h)) in
    rw (e, read_pairs)
      (rw rest (elim (Bool-cases (are_legal_pairs (q ∷ qs))) [ inl f ↦ rw f | inr f ↦ rw f ]))

read_pairs-written :
    (fuel : ℕ) (p : Bytes × Bytes) (ps : List (Bytes × Bytes))
    → length ps < fuel
    → read_pairs fuel (written p ++ written_tail ps)
      ≡ (if are_legal_pairs (p ∷ ps) then some (p ∷ ps) else none)
unfolding read_pairs
read_pairs-written zero p ps h = absurd (omega arith)
read_pairs-written (suc fuel) (key, value) ps h =
    let first = read_pair-written key value (written_tail ps) in
    elim (Bool-cases (are_legal key && are_legal value)) [
      | inl e ↦
          let good : read_pair (written (key, value) ++ written_tail ps)
              ≡ some ((key, value), written_tail ps) =
            rw e at first in
          rw e (read_pairs-pair fuel (key, value) ps good (read_pairs-written fuel) h)
      | inr e ↦
          let bad : read_pair (written (key, value) ++ written_tail ps) ≡ none = rw e at first in
          rw (e, bad, read_pairs)
    ]

length-written_tail : (ps : List (Bytes × Bytes)) → length ps < length (written_tail ps)
unfolding written_tail
length-written_tail [] = omega arith
length-written_tail (p ∷ ps) =
    omega (arith, length-written_tail ps, length-append (written p) (written_tail ps))

read_object-written :
    (p : Bytes × Bytes) (ps : List (Bytes × Bytes))
    → read_object (b'{' ∷ written p ++ written_tail ps)
      ≡ (if are_legal_pairs (p ∷ ps) then some (p ∷ ps) else none)
unfolding read_object
read_object-written p ps =
    read_pairs-written (length (written p ++ written_tail ps)) p ps
      (omega (arith, length-written_tail ps, length-append (written p) (written_tail ps)))

write_fields-written_tail :
    (fields : List (Bytes × Bytes)) (entry : Bytes)
    → write_fields fields entry ++ codes "}" ≡ entry ++ written_tail fields
unfolding write_fields written_tail written
write_fields-written_tail [] entry = refl
write_fields-written_tail (p ∷ fields) entry = simp (write_fields-written_tail fields, append_assoc)

-- the four pairs that every entry begins with
abbrev pub header : Bytes → Bytes → Bytes → Bytes → List (Bytes × Bytes)
header now level event message =
    (codes "ts", now)
    ∷ (codes "level", level)
    ∷ (codes "event", event)
    ∷ (codes "message", message)
    ∷ []

pub log_entry-written :
    (now level event message : Bytes) (fields : List (Bytes × Bytes))
    → log_entry now level event message fields
      ≡ b'{' ∷ written (codes "ts", now)
        ++ written_tail
            ((codes "level", level) ∷ (codes "event", event) ∷ (codes "message", message) ∷ fields)
unfolding log_entry
log_entry-written now level event message fields =
    rw write_fields-written_tail
      (unfold written written_tail escape_json_string escape_loop escape_char in simp append_assoc)

-- A JSON reader gets back the time, the level, the event, the message and each field of a log entry if none
-- of them holds a control character other than line feed, carriage return and tab; if one does, it
-- refuses the entry, which is no JSON then.
pub read_object-log_entry :
    (now level event message : Bytes) (fields : List (Bytes × Bytes))
    → let pairs = header now level event message ++ fields in
      read_object (log_entry now level event message fields)
      ≡ (if are_legal_pairs pairs then some pairs else none)
read_object-log_entry now level event message fields = rw log_entry-written (
    read_object-written (codes "ts", now)
      ((codes "level", level) ∷ (codes "event", event) ∷ (codes "message", message) ∷ fields))
