-- ===== src/HttpClient/Reader.antt =====
-- A reader of the tokens of a payload: a chain of steps, each of which may refuse.
use real_time_system_metrics.Base.{
  ℕ, zero, suc, ◌≤◌, ◌≡◌, refl, ap, ◌&&◌, List, [], ◌∷◌, ◌++◌, map, append_assoc, Option, none,
  some, Bytes, bytes_eq, codes, All, ◌==◌, if◌then◌else◌, arith, length, length-append,
}
use real_time_system_metrics.Double.{Double}
use real_time_system_metrics.CppStd.Numbers.{stoi}
use real_time_system_metrics.CppStd.Printing.{IsIn, stoi-int_to_string}
use real_time_system_metrics.Processes.{ProcessMetrics}
use real_time_system_metrics.HttpClient.Lexer.{Token, punct, text, number}
use real_time_system_metrics.HttpClient.Tokens.{elements, array, process_tokens}

-- What is read from some tokens, and those that are left.
abbrev pub Reader : Type 0 → Type 0
Reader A = List Token → Option (A × List Token)

infixl 5 ◌>>=◌ ◌>>◌
abbrev pub ◌>>=◌ : {A B : Type 0} → Reader A → (A → Reader B) → Reader B
◌>>=◌ m f ts = elim (m ts) [ none ↦ none | some (a, rest) ↦ f a rest ]

abbrev pub ◌>>◌ : {B : Type 0} → Reader (Unit {0}) → Reader B → Reader B
m >> k = m >>= λ _. k

abbrev pub found : {A : Type 0} → A → Reader A
found a ts = some (a, ts)

abbrev pub required : {A : Type 0} → Option A → Reader A
required none ts = none
required (some a) ts = some (a, ts)

abbrev pub take_punct : ℕ → Reader (Unit {0})
take_punct c (punct b ∷ ts) = if b == c then some (tt, ts) else none
take_punct c _ = none

abbrev pub take_key : Bytes → Reader (Unit {0})
take_key key (text k ∷ punct b ∷ ts) = if bytes_eq k key && b == b':' then some (tt, ts) else none
take_key key _ = none

abbrev pub take_text : Reader Bytes
take_text (text s ∷ ts) = some (s, ts)
take_text _ = none

abbrev pub take_number : Reader Bytes
take_number (number x ∷ ts) = some (x, ts)
take_number _ = none

-- The doubles are read as their texts.
unfoldable pub read_process : Reader (ProcessMetrics Bytes)
unfolding bytes_eq
read_process = do
  take_punct b'{'
  take_key (codes "pid")
  pid_text ← take_number
  pid ← required (stoi pid_text)
  take_punct b','
  take_key (codes "name")
  name ← take_text
  take_punct b','
  take_key (codes "cpu_percent")
  cpu_percent ← take_number
  take_punct b','
  take_key (codes "memory_mb")
  memory_mb ← take_number
  take_punct b','
  take_key (codes "thread_count")
  thread_text ← take_number
  thread_count ← required (stoi thread_text)
  take_punct b','
  take_key (codes "io_read_mb")
  io_read_mb ← take_number
  take_punct b','
  take_key (codes "io_write_mb")
  io_write_mb ← take_number
  take_punct b','
  take_key (codes "handle_count")
  handle_text ← take_number
  handle_count ← required (stoi handle_text)
  take_punct b'}'
  found (record {
    pid = pid;
    name = name;
    cpu_percent = cpu_percent;
    memory_mb = memory_mb;
    thread_count = thread_count;
    io_read_mb = io_read_mb;
    io_write_mb = io_write_mb;
    handle_count = handle_count;
  })

module _ {W : Type 0} ⦃d : Double W⦄ where
  -- A process with the texts of its doubles.
  abbrev pub process_texts : ProcessMetrics W → ProcessMetrics Bytes
  process_texts p = record {
    pid = p.pid;
    name = p.name;
    cpu_percent = d.fixed_2 p.cpu_percent;
    memory_mb = d.fixed_2 p.memory_mb;
    thread_count = p.thread_count;
    io_read_mb = d.fixed_2 p.io_read_mb;
    io_write_mb = d.fixed_2 p.io_write_mb;
    handle_count = p.handle_count;
  }

  -- The integers of a process are of type `int`.
  abbrev pub AreInts : ProcessMetrics W → Type 0
  AreInts p = IsIn 32 p.pid × IsIn 32 p.thread_count × IsIn 32 p.handle_count

  pub read_process-process_tokens :
      (p : ProcessMetrics W) (rest : List Token)
      → AreInts p
      → read_process (process_tokens p ++ rest) ≡ some (process_texts p, rest)
  unfolding read_process bytes_eq
  read_process-process_tokens p rest h =
      rw (stoi-int_to_string p.pid h.0) (
        rw (stoi-int_to_string p.thread_count h.1)
          (rw (stoi-int_to_string p.handle_count h.2) refl))

-- The rest of an array behind its bracket: some values, with a comma or the closing bracket behind each.
unfoldable pub read_values : {A : Type 0} → Reader A → ℕ → Reader (List A)
read_values item zero ts = none
read_values item (suc fuel) ts = elim (item ts) [
  | none ↦ none
  | some (a, []) ↦ none
  | some (a, (text s ∷ rest)) ↦ none
  | some (a, (number x ∷ rest)) ↦ none
  | some (a, (punct c ∷ rest)) ↦
      if c == b']'
      then some (a ∷ [], rest)
      else if c == b','
      then elim (read_values item fuel rest) [
        | none ↦ none
        | some (values, left) ↦ some (a ∷ values, left)
      ]
      else none
]

-- Enough fuel is the number of tokens.
unfoldable pub read_array : {A : Type 0} → Reader A → Reader (List A)
unfolding read_values
read_array item ts = elim (take_punct b'[' ts) [
  | none ↦ none
  | some (_, rest) ↦ elim (take_punct b']' rest) [
    | some (_, left) ↦ some ([], left)
    | none ↦ read_values item (length rest) rest
  ]
]

read_values-elements :
    {A B : Type 0} (item : Reader B) (v : A → List Token) (g : A → B) (fuel : ℕ) (x : A)
    (xs : List A) (rest : List Token)
    → All (λ a. (ts : List Token) → item (v a ++ ts) ≡ some (g a, ts)) (x ∷ xs)
    → length (x ∷ xs) ≤ fuel
    → read_values item fuel (elements (map v (x ∷ xs)) ++ rest) ≡ some (map g (x ∷ xs), rest)
unfolding read_values
read_values-elements item v g zero x xs rest h n = absurd (omega (arith, n))
read_values-elements item v g (suc fuel) x [] rest h n =
    rw append_assoc (rw (read_values, h.0 (punct b']' ∷ rest)) refl)
read_values-elements item v g (suc fuel) x (y ∷ xs) rest h n = rw append_assoc (
    rw (read_values, h.0 (punct b',' ∷ elements (map v (y ∷ xs)) ++ rest))
      (rw (read_values-elements item v g fuel y xs rest h.1 (omega (arith, n))) refl))

length-elements : (vs : List (List Token)) → length vs ≤ length (elements vs)
length-elements [] = omega arith
length-elements (v ∷ []) = omega (arith, length-append v (punct b']' ∷ []))
length-elements (v ∷ w ∷ vs) =
    omega (arith, length-append v (punct b',' ∷ elements (w ∷ vs)), length-elements (w ∷ vs))

elements-append :
    (v : List Token) (vs : List (List Token)) → (ts : List Token) × (elements (v ∷ vs) ≡ v ++ ts)
elements-append v [] = (_, refl)
elements-append v (w ∷ vs) = (_, refl)

length-map : {A B : Type 0} (f : A → B) (xs : List A) → length (map f xs) ≡ length xs
length-map f [] = refl
length-map f (x ∷ xs) = ap suc (length-map f xs)

pub read_array-array :
    {A B : Type 0} (item : Reader B) (v : A → List Token) (g : A → B) (xs : List A)
    (rest : List Token)
    → ((a : A) (ts : List Token) → take_punct b']' (v a ++ ts) ≡ none)
    → All (λ a. (ts : List Token) → item (v a ++ ts) ≡ some (g a, ts)) xs
    → read_array item (array (map v xs) ++ rest) ≡ some (map g xs, rest)
unfolding read_array
read_array-array item v g [] rest first h = refl
read_array-array item v g (x ∷ xs) rest first h =
    let ts = elements (map v (x ∷ xs)) ++ rest in
    let n : length (x ∷ xs) ≤ length ts = omega (
      arith,
      length-append (elements (map v (x ∷ xs))) rest,
      length-elements (map v (x ∷ xs)),
      length-map v (x ∷ xs),
    ) in
    let (tail, q) = elements-append (v x) (map v xs) in
    let e : take_punct b']' ts ≡ none = rw (q, append_assoc) (first x (tail ++ rest)) in
    rw e (read_values-elements item v g (length ts) x xs rest h n)
