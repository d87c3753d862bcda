-- ===== src/Proc/Lines.antt =====
-- What `read_linux_process_stat` makes of a line as the kernel writes it, whatever the name of the process.
use real_time_system_metrics.Base.{
  ℕ, zero, suc, ◌+◌, ◌-◌, ◌%◌, ◌^◌, ◌≤◌, ◌<◌, ◌≡◌, refl, ap, ◌∙◌, false, List, [], ◌∷◌, ◌++◌,
  append_assoc, append-nil, none, some, Bytes, ltb, leb, length, length-append, take, drop, All,
  Lacks, arith,
}
use real_time_system_metrics.CppStd.Chars.{is_space}
use real_time_system_metrics.CppStd.Getline.{getlines, getline_loop-line}
use real_time_system_metrics.Proc.Stat.{
  stat_fields, first_of, find_byte, rfind_byte, words_loop, field_value, stat_values, stat_tail,
  stat_between, read_linux_process_stat,
}

-- The fields behind the first one, a space before each.
abbrev pub spaced : List Bytes → Bytes
spaced [] = []
spaced (w ∷ ws) = b' ' ∷ w ++ spaced ws

-- The line of /proc/<pid>/stat: the number, the name in parentheses, and the fields.
abbrev pub stat_line : Bytes → Bytes → List Bytes → Bytes
stat_line pid_text name fields = pid_text ++ b'(' ∷ name ++ b')' ∷ spaced fields

-- Some bytes that are no spaces.
abbrev pub IsField : Bytes → Type 0
IsField [] = ⊥
IsField (c ∷ w) = All (λ b. is_space b ≡ false) (c ∷ w)

find_byte-first :
    (b : ℕ) (s rest : Bytes) → Lacks b s → find_byte b (s ++ b ∷ rest) ≡ some (length s)
unfolding find_byte
find_byte-first b [] rest h = ground arith
find_byte-first b (c ∷ s) rest (n, h) = ground (arith, find_byte-first b s rest h)

rfind_byte-none : (b : ℕ) (s : Bytes) → Lacks b s → rfind_byte b s ≡ none
unfolding rfind_byte
rfind_byte-none b [] h = refl
rfind_byte-none b (c ∷ s) (n, h) = ground (arith, rfind_byte-none b s h)

rfind_byte-last :
    (b : ℕ) (s rest : Bytes) → Lacks b rest → rfind_byte b (s ++ b ∷ rest) ≡ some (length s)
unfolding rfind_byte
rfind_byte-last b [] rest h = ground (arith, rfind_byte-none b rest h)
rfind_byte-last b (c ∷ s) rest h = rw (rfind_byte-last b s rest h)

drop_of_length : (n : ℕ) (s t : Bytes) → n ≡ length s → drop n (s ++ t) ≡ t
drop_of_length zero [] t e = refl
drop_of_length (suc n) [] t e = absurd (omega arith)
drop_of_length zero (c ∷ s) t e = absurd (omega arith)
drop_of_length (suc n) (c ∷ s) t e = drop_of_length n s t (omega arith)

take_of_length : (n : ℕ) (s t : Bytes) → n ≡ length s → take n (s ++ t) ≡ s
take_of_length zero [] t e = refl
take_of_length (suc n) [] t e = absurd (omega arith)
take_of_length zero (c ∷ s) t e = absurd (omega arith)
take_of_length (suc n) (c ∷ s) t e = ap (◌∷◌ c) (take_of_length n s t (omega arith))

words_loop-word :
    (b : ℕ) (token w rest : Bytes)
    → All (λ c. is_space c ≡ false) w
    → words_loop (b ∷ token) (w ++ rest) ≡ words_loop (b ∷ token ++ w) rest
unfolding words_loop
words_loop-word b token [] rest h = rw (append-nil token)
words_loop-word b token (c ∷ w) rest (n, h) =
    rw (n, words_loop) (simp (words_loop-word b (token ++ c ∷ []) w rest h, append_assoc))

words_loop-field :
    (c : ℕ) (w rest : Bytes)
    → All (λ b. is_space b ≡ false) (c ∷ w)
    → words_loop [] (c ∷ w ++ rest) ≡ words_loop (c ∷ w) rest
unfolding words_loop
words_loop-field c w rest (n, h) = rw (n, words_loop) (words_loop-word c [] w rest h)

words_loop-spaced :
    (b : ℕ) (token : Bytes) (ws : List Bytes)
    → All IsField ws
    → words_loop (b ∷ token) (spaced ws) ≡ (b ∷ token) ∷ ws
unfolding words_loop
words_loop-spaced b token [] h = refl
words_loop-spaced b token ([] ∷ ws) (h, hs) = absurd h
words_loop-spaced b token ((c ∷ w) ∷ ws) (h, hs) =
    ap (λ t. (b ∷ token) ∷ t) (words_loop-field c w (spaced ws) h ∙ words_loop-spaced c w ws hs)

words_loop-fields :
    (w : Bytes) (ws : List Bytes) → All IsField (w ∷ ws) → words_loop [] (w ++ spaced ws) ≡ w ∷ ws
words_loop-fields [] ws (h, hs) = absurd h
words_loop-fields (c ∷ w) ws (h, hs) =
    words_loop-field c w (spaced ws) h ∙ words_loop-spaced c w ws hs

-- The cuts of the line, at positions that are right.
stat_between-cut :
    (line name tail : Bytes) (open_paren close_paren : ℕ)
    → take (close_paren - open_paren - 1) (drop (open_paren + 1) line) ≡ name
    → drop (close_paren + 2) line ≡ tail
    → open_paren < close_paren
    → close_paren + 2 ≤ length line
    → stat_between line (some open_paren) (some close_paren) ≡ stat_tail name (words_loop [] tail)
unfolding stat_between
stat_between-cut line name tail open_paren close_paren e f h k =
    let behind : leb close_paren open_paren ≡ false = ground (arith, h) in
    let long : ltb (length line) (close_paren + 2) ≡ false = ground (arith, k) in
    rw (behind, long, e, f)

stat_between-line :
    (pid_text name w : Bytes) (ws : List Bytes)
    → stat_between
        (stat_line pid_text name (w ∷ ws))
        (some (length pid_text))
        (some (length (pid_text ++ b'(' ∷ name)))
      ≡ stat_tail name (words_loop [] (w ++ spaced ws))
stat_between-line pid_text name w ws =
    let tail = w ++ spaced ws in
    let behind : Bytes = b')' ∷ b' ' ∷ tail in
    let front : Bytes = b'(' ∷ name ++ b')' ∷ b' ' ∷ [] in
    let close_paren = length (pid_text ++ b'(' ∷ name) in
    let close_at : close_paren ≡ length pid_text + suc (length name) =
      length-append {0} pid_text (b'(' ∷ name) in
    let opened : stat_line pid_text name (w ∷ ws) ≡ (pid_text ++ b'(' ∷ []) ++ (name ++ behind) =
      simp append_assoc in
    let inner : drop (length pid_text + 1) (stat_line pid_text name (w ∷ ws)) ≡ name ++ behind =
      ap (drop (length pid_text + 1)) opened
      ∙ drop_of_length (length pid_text + 1) (pid_text ++ b'(' ∷ []) (name ++ behind)
          (omega (arith, length-append {0} pid_text (b'(' ∷ []))) in
    let whole : stat_line pid_text name (w ∷ ws) ≡ (pid_text ++ front) ++ tail =
      simp append_assoc in
    let front_length : length (pid_text ++ front) ≡ close_paren + 2 = omega (
      arith,
      close_at,
      length-append {0} pid_text front,
      length-append {0} name (b')' ∷ b' ' ∷ []),
    ) in
    stat_between-cut (stat_line pid_text name (w ∷ ws)) name tail (length pid_text) close_paren
      (ap (take (close_paren - length pid_text - 1)) inner
        ∙ take_of_length (close_paren - length pid_text - 1) name behind (omega (arith, close_at)))
      (ap (drop (close_paren + 2)) whole
        ∙ drop_of_length (close_paren + 2) (pid_text ++ front) tail (omega (arith, front_length)))
      (omega (arith, close_at))
      (omega
        (arith, front_length, ap (length {0}) whole, length-append {0} (pid_text ++ front) tail))

stat_tail-values :
    (name : Bytes) (fields : List Bytes) {user_ticks system_ticks rss_pages : ℕ}
    → 22 ≤ length fields
    → field_value fields 11 ≡ some user_ticks
    → field_value fields 12 ≡ some system_ticks
    → field_value fields 21 ≡ some rss_pages
    → stat_tail name fields ≡ stat_fields name ((user_ticks + system_ticks) % 2 ^ 64) rss_pages
unfolding stat_tail stat_values
stat_tail-values name fields h u v r =
    let enough : ltb (length fields) 22 ≡ false = ground (arith, h) in rw (enough, u, v, r)

read_first_line :
    (line rest : Bytes) → Lacks b'\n' line → first_of (getlines b'\n' (line ++ b'\n' ∷ rest)) ≡ line
unfolding getlines
read_first_line line rest h = ap first_of (getline_loop-line [] line rest h)

stat_at_parens :
    (pid_text name : Bytes) (fields : List Bytes) (rest : Bytes)
    → Lacks b'(' pid_text
    → Lacks b')' (spaced fields)
    → Lacks b'\n' (stat_line pid_text name fields)
    → read_linux_process_stat (some (stat_line pid_text name fields ++ b'\n' ∷ rest))
      ≡ stat_between
          (stat_line pid_text name fields)
          (some (length pid_text))
          (some (length (pid_text ++ b'(' ∷ name)))
unfolding read_linux_process_stat
stat_at_parens pid_text name fields rest h k n =
    let line = stat_line pid_text name fields in
    let open_at : find_byte b'(' line ≡ some (length pid_text) =
      ap (find_byte b'(') (append_assoc pid_text (b'(' ∷ name) (b')' ∷ spaced fields))
      ∙ find_byte-first b'(' pid_text (name ++ b')' ∷ spaced fields) h in
    rw (
      read_first_line line rest n,
      open_at,
      rfind_byte-last b')' (pid_text ++ b'(' ∷ name) (spaced fields) k,
    )

-- `read_linux_process_stat` on a line as the kernel writes it, with text behind it: the name comes back
-- whatever parentheses and spaces it holds, with the sum of the ticks modulo 2^64 and the pages. No `(`
-- stands before the name and no `)` behind it, the line has no line feed, each of the fields, at least 22
-- of them, has bytes and no space, and the three that are read are numbers in range.
pub read_linux_process_stat-line :
    (pid_text name : Bytes) (fields : List Bytes) (rest : Bytes)
    {user_ticks system_ticks rss_pages : ℕ}
    → Lacks b'(' pid_text
    → Lacks b')' (spaced fields)
    → Lacks b'\n' (stat_line pid_text name fields)
    → All IsField fields
    → 22 ≤ length fields
    → field_value fields 11 ≡ some user_ticks
    → field_value fields 12 ≡ some system_ticks
    → field_value fields 21 ≡ some rss_pages
    → read_linux_process_stat (some (stat_line pid_text name fields ++ b'\n' ∷ rest))
      ≡ stat_fields name ((user_ticks + system_ticks) % 2 ^ 64) rss_pages
read_linux_process_stat-line pid_text name [] rest h k n f m u v r = absurd (omega arith)
read_linux_process_stat-line pid_text name (w ∷ ws) rest h k n f m u v r =
    stat_at_parens pid_text name (w ∷ ws) rest h k n
    ∙ stat_between-line pid_text name w ws
    ∙ ap (stat_tail name) (words_loop-fields w ws f)
    ∙ stat_tail-values name (w ∷ ws) m u v r
