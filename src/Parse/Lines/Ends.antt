-- ===== src/Parse/Lines/Ends.antt =====
-- Where a start line ends.
use qhttp.Base.{
  subst, ℕ, suc, ◌+◌, ◌≡◌, ◌↔◌, refl, ap, ◌∙◌, false, List, [], ◌∷◌, ◌++◌, some, ok, ◌==◌, arith,
  length, All, Bool-cases, inl, inr,
}
use qhttp.Parse.Chars.{cr, nl}
use qhttp.Parse.Lines.{start_line_end_from, find_start_line_end}

-- A line without a CR, then CR NL.
abbrev pub IsStartLine : List ℕ → ℕ → Type 0
IsStartLine buf end =
    (line tail : List ℕ) × (buf ≡ line ++ cr ∷ nl ∷ tail)
    × All (λ b. (b == cr) ≡ false) line
    × (end ≡ length line + 2)

start_line_end_from-line :
    (line tail : List ℕ) (idx : ℕ)
    → All (λ b. (b == cr) ≡ false) line
    → start_line_end_from (line ++ cr ∷ nl ∷ tail) idx ≡ ok (some (idx + (length line + 2)))
unfolding start_line_end_from
start_line_end_from-line [] tail idx h = ground arith
start_line_end_from-line (a ∷ []) tail idx h = rw (h.0) (ground arith)
start_line_end_from-line (a ∷ b ∷ line) tail idx h =
    rw (h.0) (start_line_end_from-line (b ∷ line) tail (idx + 1) h.1 ∙ ground arith)

start_line_end_from-found :
    (buf : List ℕ) (idx end : ℕ)
    → start_line_end_from buf idx ≡ ok (some end)
    → (n : ℕ) × IsStartLine buf n × (end ≡ idx + n)
unfolding start_line_end_from
start_line_end_from-found [] idx end e = absurd cc
start_line_end_from-found (a ∷ []) idx end e = absurd cc
start_line_end_from-found (a ∷ b ∷ rest) idx end e = elim (Bool-cases (a == cr)) [
  | inl h ↦ elim (Bool-cases (b == nl)) [
    | inl k ↦ (2, ([], rest, ground arith, tt, refl), ground arith)
    | inr k ↦ absurd (ground arith)
  ]
  | inr h ↦
      let later : start_line_end_from (b ∷ rest) (idx + 1) ≡ ok (some end) = ground arith in
      let (n, (line, tail, q, all, m), l) =
        start_line_end_from-found (b ∷ rest) (idx + 1) end later in
      (suc n, (a ∷ line, tail, ap (◌∷◌ a) q, (h, all), omega (arith, m)), omega (arith, l))
]

-- The end of a start line is found, at `end`, exactly if the slice starts with bytes other than CR,
-- then CR NL, and `end` is behind them.
pub find_start_line_end_iff :
    (buf : List ℕ) (end : ℕ) → (find_start_line_end buf ≡ ok (some end)) ↔ IsStartLine buf end
unfolding find_start_line_end
find_start_line_end_iff buf end = (found, line)
  where
    found : find_start_line_end buf ≡ ok (some end) → IsStartLine buf end
    found e =
        let (n, line, k) = start_line_end_from-found buf 0 end e in
        let same : n ≡ end = omega (arith, k) in subst (IsStartLine buf) same line

    line : IsStartLine buf end → find_start_line_end buf ≡ ok (some end)
    line (l, tail, e, h, k) = rw (e, k) (start_line_end_from-line l tail 0 h ∙ ground arith)
