-- ===== src/CppStd/Getline.antt =====
-- `while (std::getline(stream, token, delimiter))`: the tokens that the loop sees.
use real_time_system_metrics.Base.{
  ℕ, ◌≡◌, refl, sym, ap, true, false, List, [], ◌∷◌, ◌++◌, append_assoc, append-nil, Bytes, ◌==◌,
  Lacks, arith,
}

-- The rest of the input behind the bytes of the current token. At the end of the input a token is
-- returned only if the call has taken a byte.
unfoldable pub getline_loop : ℕ → Bytes → Bytes → List Bytes
getline_loop delimiter [] [] = []
getline_loop delimiter (b ∷ token) [] = (b ∷ token) ∷ []
getline_loop delimiter token (c ∷ s) = elim (c == delimiter) [
  | true ↦ token ∷ getline_loop delimiter [] s
  | false ↦ getline_loop delimiter (token ++ c ∷ []) s
]

unfoldable pub getlines : ℕ → Bytes → List Bytes
unfolding getline_loop
getlines delimiter = getline_loop delimiter []

-- A line that is read behind the bytes of `token`.
pub getline_loop-line :
    (token line rest : Bytes)
    → Lacks b'\n' line
    → getline_loop b'\n' token (line ++ b'\n' ∷ rest) ≡ (token ++ line) ∷ getline_loop b'\n' [] rest
unfolding getline_loop
getline_loop-line [] [] rest h = refl
getline_loop-line (b ∷ token) [] rest h =
    ap (λ t. t ∷ getline_loop b'\n' [] rest) (sym (append-nil (b ∷ token)))
getline_loop-line [] (c ∷ line) rest (n, h) = ground (arith, getline_loop-line (c ∷ []) line rest h)
getline_loop-line (b ∷ token) (c ∷ line) rest (n, h) =
    let e : (c == b'\n') ≡ false = ground (arith, n) in
    rw (e, getline_loop) (simp (getline_loop-line (b ∷ token ++ c ∷ []) line rest h, append_assoc))
