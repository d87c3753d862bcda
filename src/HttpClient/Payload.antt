-- ===== src/HttpClient/Payload.antt =====
-- What a JSON reader finds in the payload of a snapshot.
use real_time_system_metrics.Base.{
  ℕ, ◌+◌, ◌≡◌, refl, sym, ap, ◌∙◌, true, List, [], ◌∷◌, ◌++◌, map, append_assoc, append-nil, some,
  Bytes, codes, All, All-mono, ℤ, pos, negsuc, arith,
}
use real_time_system_metrics.Double.{Double}
use real_time_system_metrics.CppStd.Numbers.{int_to_string, to_string}
use real_time_system_metrics.CppStd.Printing.{to_string-AreDigits, to_string-cons}
use real_time_system_metrics.Processes.{ProcessMetrics}
use real_time_system_metrics.Metrics.{SystemMetrics}
use real_time_system_metrics.HttpClient.{
  write_cores, process_to_json, write_processes, metrics_to_json,
}
use real_time_system_metrics.HttpClient.Lexer.{
  Token, Mode, punct, text, number, between, in_text, in_number, is_numeral, lex_loop, lex,
  lex_step, Lexes, ◌▷◌, IsNumeral, IsPlain, numeral-Lexes, plain-Lexes, Lexes-lex,
}
use real_time_system_metrics.HttpClient.Tokens.{
  elements, number_tokens, decimal, process_tokens, snapshot_tokens, IsPrintable, IsClean,
  IsWritable,
}

-- `f` of each, with commas between
abbrev separated : {A : Type 0} → (A → Bytes) → List A → Bytes
separated f [] = []
separated f (x ∷ []) = f x
separated f (x ∷ y ∷ xs) = f x ++ codes "," ++ separated f (y ∷ xs)

Lexes-of :
    {mode next : Mode} {s t : Bytes} {out rest : List Token}
    → s ≡ t
    → out ≡ rest
    → Lexes mode s out next
    → Lexes mode t rest next
Lexes-of e f l = rw (← e, ← f) l

separated-Lexes :
    {A : Type 0} (f : A → Bytes) (v : A → List Token) (xs : List A)
    → All
        (λ x.
          Lexes between (f x ++ codes ",") (v x ++ punct b',' ∷ []) between
          × Lexes between (f x ++ codes "]") (v x ++ punct b']' ∷ []) between)
        xs
    → Lexes between (separated f xs ++ codes "]") (elements (map v xs)) between
unfolding lex_loop lex_step
separated-Lexes f v [] h = record { run = refl }
separated-Lexes f v (x ∷ []) h = h.0.1
separated-Lexes f v (x ∷ y ∷ xs) h =
    let l = h.0.0 ▷ (separated-Lexes f v (y ∷ xs) h.1) in
    Lexes-of (simp append_assoc refl) (simp append_assoc refl) l

pub to_string-AreNumerals : (n : ℕ) → All (λ c. is_numeral c ≡ true) (to_string n)
to_string-AreNumerals n = All-mono _ _ (to_string n) (λ c h. ground arith) (to_string-AreDigits n)

int_to_string-IsNumeral : (z : ℤ) → IsNumeral (int_to_string z)
unfolding int_to_string
int_to_string-IsNumeral (pos n) =
    let (b, rest, q) = to_string-cons n in (λ e. absurd (cc (q, e)), to_string-AreNumerals n)
int_to_string-IsNumeral (negsuc n) = (λ e. absurd (cc e), (refl, to_string-AreNumerals (n + 1)))

-- A number between what stands before it and a comma.
number_member :
    {pre : Bytes} {out : List Token} (x : Bytes)
    → Lexes between pre out between
    → IsNumeral x
    → Lexes between (pre ++ x ++ codes ",") (out ++ number x ∷ punct b',' ∷ []) between
unfolding lex_loop lex_step
number_member {out = out} x l h =
    let comma : Lexes (in_number x) (codes ",") (number x ∷ punct b',' ∷ []) between = record {
      run = refl;
    } in
    Lexes-of refl (ap (λ z. z ++ number x ∷ punct b',' ∷ []) (append-nil out))
      (l ▷ numeral-Lexes x h ▷ comma)

text_member :
    {pre : Bytes} {out : List Token} (s : Bytes)
    → Lexes between pre out (in_text [])
    → IsPlain s
    → Lexes between (pre ++ s ++ codes "\",") (out ++ text s ∷ punct b',' ∷ []) between
unfolding lex_loop lex_step
text_member {out = out} s l h =
    let comma : Lexes (in_text s) (codes "\",") (text s ∷ punct b',' ∷ []) between = record {
      run = refl;
    } in
    Lexes-of refl (ap (λ z. z ++ text s ∷ punct b',' ∷ []) (append-nil out))
      (l ▷ plain-Lexes s h ▷ comma)

last_member :
    {pre : Bytes} {out : List Token} (x : Bytes)
    → Lexes between pre out between
    → IsNumeral x
    → Lexes between (pre ++ x) out (in_number x)
last_member {out = out} x l h = Lexes-of refl (append-nil out) (l ▷ numeral-Lexes x h)

-- A list between what stands before it and its closing bracket.
list_member :
    {pre s : Bytes} (sep : Bytes) {out list : List Token}
    → s ≡ pre ++ sep
    → Lexes between pre out between
    → Lexes between (sep ++ codes "]") list between
    → Lexes between (s ++ codes "]") (out ++ list) between
list_member {pre = pre} sep e l a =
    Lexes-of (sym (ap (λ z. z ++ codes "]") e ∙ append_assoc pre sep (codes "]"))) refl (l ▷ a)

regrouped :
    {A : Type 0} (a b c d e f x y : List A)
    → a ++ x ++ b ++ c ++ d ++ e ++ y ++ f ≡ a ++ (x ++ (b ++ (c ++ (d ++ (e ++ (y ++ f))))))
regrouped a b c d e f x y = simp append_assoc refl

module _ {W : Type 0} ⦃d : Double W⦄ where
  process-Lexes :
      (p : ProcessMetrics W)
      → IsClean p
      → Lexes between (process_to_json p) (process_tokens p) between
  unfolding process_to_json lex_loop lex_step
  process-Lexes p h =
      let int = int_to_string-IsNumeral in
      let brace : Lexes between (codes "{") (punct b'{' ∷ []) between = record { run = refl } in
      let pid = number_member {pre = codes "\"pid\":"} _ (record { run = refl }) (int p.pid) in
      let name = text_member {pre = codes "\"name\":\""} _ (record { run = refl }) h.0 in
      let cpu = number_member {pre = codes "\"cpu_percent\":"} _ (record { run = refl }) h.1 in
      let memory = number_member {pre = codes "\"memory_mb\":"} _ (record { run = refl }) h.2 in
      let threads =
        number_member {pre = codes "\"thread_count\":"} _ (record { run = refl })
          (int p.thread_count) in
      let reads = number_member {pre = codes "\"io_read_mb\":"} _ (record { run = refl }) h.3 in
      let writes = number_member {pre = codes "\"io_write_mb\":"} _ (record { run = refl }) h.4 in
      let handles =
        last_member {pre = codes "\"handle_count\":"} _ (record { run = refl })
          (int p.handle_count) in
      let end : Lexes (in_number _) (codes "}") (number _ ∷ punct b'}' ∷ []) between = record {
        run = refl;
      } in
      brace ▷ pid ▷ name ▷ cpu ▷ memory ▷ threads ▷ reads ▷ writes ▷ handles ▷ end

  write_cores-separated :
      (xs : List W) (json : Bytes) → write_cores xs json ≡ json ++ separated d.fixed_2 xs
  unfolding write_cores
  write_cores-separated [] json = sym (append-nil json)
  write_cores-separated (x ∷ []) json = refl
  write_cores-separated (x ∷ y ∷ xs) json = simp (write_cores-separated (y ∷ xs), append_assoc) refl

  write_processes-separated :
      (ps : List (ProcessMetrics W)) (json : Bytes)
      → write_processes ps json ≡ json ++ separated process_to_json ps
  unfolding write_processes
  write_processes-separated [] json = sym (append-nil json)
  write_processes-separated (p ∷ []) json = refl
  write_processes-separated (p ∷ q ∷ ps) json =
      simp (write_processes-separated (q ∷ ps), append_assoc) refl

  cores-Lexes :
      (xs : List W)
      → All IsPrintable xs
      → Lexes between (separated d.fixed_2 xs ++ codes "]") (elements (map decimal xs)) between
  unfolding lex_loop lex_step
  cores-Lexes xs h = separated-Lexes d.fixed_2 decimal xs (
      All-mono _ _ xs
        (λ x n.
          (numeral-Lexes _ n ▷ record { run = refl }, numeral-Lexes _ n ▷ record { run = refl }))
        h)

  processes-Lexes :
      (ps : List (ProcessMetrics W))
      → All IsClean ps
      → Lexes between
          (separated process_to_json ps ++ codes "]")
          (elements (map process_tokens ps))
          between
  unfolding lex_loop lex_step
  processes-Lexes ps h = separated-Lexes process_to_json process_tokens ps (
      All-mono _ _ ps
        (λ p c.
          (process-Lexes p c ▷ record { run = refl }, process-Lexes p c ▷ record { run = refl }))
        h)

  abbrev head_tokens : SystemMetrics W → List Token
  head_tokens m =
      punct b'{' ∷ number_tokens (codes "timestamp") (int_to_string m.timestamp)
      ++ number_tokens (codes "total_cpu_percent") (d.fixed_2 m.total_cpu_percent)
      ++ text (codes "per_core_cpu_percent") ∷ punct b':' ∷ punct b'[' ∷ []

  head-Lexes :
      (m : SystemMetrics W)
      → IsWritable m
      → Lexes between
          (codes "{"
            ++ (codes "\"timestamp\":" ++ int_to_string m.timestamp ++ codes ",")
            ++ (codes "\"total_cpu_percent\":" ++ d.fixed_2 m.total_cpu_percent ++ codes ",")
            ++ codes "\"per_core_cpu_percent\":[")
          (head_tokens m)
          between
  unfolding lex_loop lex_step
  head-Lexes m h =
      let brace : Lexes between (codes "{") (punct b'{' ∷ []) between = record { run = refl } in
      let time =
        number_member {pre = codes "\"timestamp\":"} _ (record { run = refl })
          (int_to_string-IsNumeral m.timestamp) in
      let cpu =
        number_member {pre = codes "\"total_cpu_percent\":"} _ (record { run = refl })
          h.total_cpu_percent in
      brace ▷ time ▷ cpu ▷ record { run = refl }

  -- From the bracket behind the cores to the one before the processes.
  middle-Lexes :
      (m : SystemMetrics W) (json : Bytes) (out : List Token)
      → IsWritable m
      → Lexes between (json ++ codes "]") out between
      → Lexes between
          (json
            ++ codes "],"
            ++ (codes "\"system_memory_total_mb\":"
                ++ d.fixed_2 m.system_memory_total_mb
                ++ codes ",")
            ++ (codes "\"system_memory_used_mb\":"
                ++ d.fixed_2 m.system_memory_used_mb
                ++ codes ",")
            ++ codes "\"top_processes\":[")
          (out
            ++ punct b',' ∷ []
            ++ number_tokens (codes "system_memory_total_mb") (d.fixed_2 m.system_memory_total_mb)
            ++ number_tokens (codes "system_memory_used_mb") (d.fixed_2 m.system_memory_used_mb)
            ++ text (codes "top_processes") ∷ punct b':' ∷ punct b'[' ∷ [])
          between
  unfolding lex_loop lex_step
  middle-Lexes m json out h l =
      let total =
        number_member {pre = codes "\"system_memory_total_mb\":"} _ (record { run = refl })
          h.system_memory_total_mb in
      let used =
        number_member {pre = codes "\"system_memory_used_mb\":"} _ (record { run = refl })
          h.system_memory_used_mb in
      let comma : Lexes between (codes ",") (punct b',' ∷ []) between = record { run = refl } in
      Lexes-of (append_assoc json (codes "]") (codes ",")) refl (l ▷ comma)
      ▷ total
      ▷ used
      ▷ record { run = refl }

  metrics_to_json-Lexes :
      (m : SystemMetrics W)
      → IsWritable m
      → Lexes between (metrics_to_json m) (snapshot_tokens m) between
  unfolding metrics_to_json lex_loop lex_step
  metrics_to_json-Lexes m h =
      let cores =
        list_member _ (write_cores-separated m.per_core_cpu_percent (_)) (head-Lexes m h)
          (cores-Lexes m.per_core_cpu_percent h.per_core_cpu_percent) in
      let middle = middle-Lexes m _ _ h cores in
      let processes =
        list_member _ (write_processes-separated m.top_processes _) middle
          (processes-Lexes m.top_processes h.top_processes) in
      let end : Lexes between (codes "}") (punct b'}' ∷ []) between = record { run = refl } in
      Lexes-of refl
        (regrouped (head_tokens m) (punct b',' ∷ [])
          (number_tokens (codes "system_memory_total_mb") (d.fixed_2 m.system_memory_total_mb))
          (number_tokens (codes "system_memory_used_mb") (d.fixed_2 m.system_memory_used_mb))
          (text (codes "top_processes") ∷ punct b':' ∷ punct b'[' ∷ []) (punct b'}' ∷ [])
          (elements (map decimal m.per_core_cpu_percent))
          (elements (map process_tokens m.top_processes)))
        (processes ▷ end)

  -- The payload of a snapshot is the JSON object of the snapshot: a reader of JSON finds the six members
  -- with their keys and values in their order, in them one value for each core and one object of eight
  -- members for each process. This is so if no number is infinite or NaN, and no name needs an escape.
  pub lex-metrics_to_json :
      (m : SystemMetrics W) → IsWritable m → lex (metrics_to_json m) ≡ some (snapshot_tokens m)
  lex-metrics_to_json m h = Lexes-lex (metrics_to_json-Lexes m h)
