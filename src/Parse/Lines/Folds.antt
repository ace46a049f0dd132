-- ===== src/Parse/Lines/Folds.antt =====
-- Where a header ends, whose lines may be folded.
use qhttp.Base.{
  ℕ, suc, ◌+◌, ◌≡◌, refl, ap, ◌∙◌, false, List, [], ◌∷◌, ◌++◌, some, ok, ◌==◌, arith, length, All,
  Bool-cases, inl, inr,
}
use qhttp.Parse.Chars.{cr, nl, is_lws}
use qhttp.Parse.Lines.{header_end_from, find_header_end}

-- `end` is behind a CR NL that is not followed by a blank.
abbrev pub EndsAt : List ℕ → ℕ → Type 0
EndsAt buf end =
    (lines : List ℕ) × (c : ℕ) × (tail : List ℕ) × (buf ≡ lines ++ cr ∷ nl ∷ c ∷ tail)
    × (is_lws c ≡ false)
    × (end ≡ length lines + 2)

header_end_from-EndsAt :
    (buf : List ℕ) (idx end : ℕ)
    → header_end_from buf idx ≡ ok (some end)
    → (n : ℕ) × EndsAt buf n × (end ≡ idx + n)
unfolding header_end_from
header_end_from-EndsAt [] idx end e = absurd cc
header_end_from-EndsAt (a ∷ []) idx end e = absurd cc
header_end_from-EndsAt (a ∷ b ∷ []) idx end e = absurd cc
header_end_from-EndsAt (a ∷ b ∷ c ∷ rest) idx end e = elim (Bool-cases (a == cr)) [
  | inl h ↦ elim (Bool-cases (b == nl)) [
    | inl k ↦ elim (Bool-cases (is_lws c)) [
      | inl l ↦
          let folded : header_end_from rest (idx + 3) ≡ ok (some end) = ground arith in
          let (n, (lines, d, tail, q, blank, m), s) =
            header_end_from-EndsAt rest (idx + 3) end folded in
          (
            n + 3,
            (
              a ∷ b ∷ c ∷ lines,
              d,
              tail,
              ap (λ (xs : List ℕ). a ∷ b ∷ c ∷ xs) q,
              blank,
              omega (arith, m),
            ),
            omega (arith, s),
          )
      | inr l ↦ (2, ([], c, rest, ground arith, l, refl), ground arith)
    ]
    | inr k ↦ absurd (ground arith)
  ]
  | inr h ↦
      let later : header_end_from (b ∷ c ∷ rest) (idx + 1) ≡ ok (some end) = ground arith in
      let (n, (lines, d, tail, q, blank, m), s) =
        header_end_from-EndsAt (b ∷ c ∷ rest) (idx + 1) end later in
      (suc n, (a ∷ lines, d, tail, ap (◌∷◌ a) q, blank, omega (arith, m)), omega (arith, s))
]

header_end_from-line :
    (line : List ℕ) (c : ℕ) (tail : List ℕ) (idx : ℕ)
    → All (λ b. (b == cr) ≡ false) line
    → is_lws c ≡ false
    → header_end_from (line ++ cr ∷ nl ∷ c ∷ tail) idx ≡ ok (some (idx + (length line + 2)))
unfolding header_end_from
header_end_from-line [] c tail idx h l = ground arith
header_end_from-line (a ∷ []) c tail idx h l = rw (h.0) (ground arith)
header_end_from-line (a ∷ b ∷ []) c tail idx h l = rw (h.0, h.1.0) (ground arith)
header_end_from-line (a ∷ b ∷ d ∷ line) c tail idx h l =
    rw (h.0) (header_end_from-line (b ∷ d ∷ line) c tail (idx + 1) h.1 l ∙ ground arith)

first_of_lines :
    (first : ℕ) (rest lines : List ℕ) (c : ℕ) (tail : List ℕ) (n : ℕ)
    → rest ≡ lines ++ cr ∷ nl ∷ c ∷ tail
    → is_lws c ≡ false
    → n ≡ suc (length lines) + 2
    → EndsAt (first ∷ rest) n
first_of_lines first rest lines c tail n q blank m =
    (first ∷ lines, c, tail, ap (◌∷◌ first) q, blank, m)

-- The end that is found for a header is behind a CR NL that no blank follows, and the header does
-- not start with a CR.
pub find_header_end-EndsAt :
    (first : ℕ) (rest : List ℕ) (end : ℕ)
    → find_header_end (first ∷ rest) ≡ ok (some end)
    → EndsAt (first ∷ rest) end × ((first == cr) ≡ false)
unfolding find_header_end
find_header_end-EndsAt first rest end e = elim (Bool-cases (first == cr)) [
  | inl h ↦ absurd (ground arith)
  | inr h ↦
      let found : header_end_from rest 1 ≡ ok (some end) = ground arith in
      let (n, (lines, c, tail, q, blank, m), s) = header_end_from-EndsAt rest 1 end found in
      (first_of_lines first rest lines c tail end q blank (omega (arith, m, s)), h)
]

-- A header of one line is found: its end is behind the CR NL.
find_header_end-line :
    (first : ℕ) (line : List ℕ) (c : ℕ) (tail : List ℕ)
    → (first == cr) ≡ false
    → All (λ b. (b == cr) ≡ false) line
    → is_lws c ≡ false
    → find_header_end (first ∷ line ++ cr ∷ nl ∷ c ∷ tail) ≡ ok (some (length line + 3))
unfolding find_header_end
find_header_end-line first line c tail f h l =
    rw (f) (header_end_from-line line c tail 1 h l ∙ ground arith)
