-- ===== src/Parse/Chunk/Header.antt =====
-- Which chunk headers are accepted, and the size that is read from them.
use qhttp.Base.{
  subst, ℕ, suc, ◌+◌, ◌≤◌, ◌<◌, ◌≡◌, ◌↔◌, refl, sym, ap, ◌∙◌, true, false, not, List, [], ◌∷◌, ◌++◌,
  Option, none, some, ok, err, ◌==◌, arith, length, All, IoResult, IoError, Bool-cases, ◌⊎◌, inl,
  inr, take-append_self, drop-append_self, length-append,
}
use qhttp.Parse.Chars.{cr, nl, semicolon, is_hex}
use qhttp.Parse.Scan.{find_hex_end}
use qhttp.Parse.Scan.First.{scan-cases, scan-stop_start, scan-none}
use qhttp.Parse.Hex.Value.{hex_value, parse_hex_lem}
use qhttp.Parse.Chunk.{
  chunk_line_end, chunk_header_end_from, find_chunk_header_end, parse_chunk_header,
}
use qhttp.Parse.Chunk.Extension.{find_chunk_header_extension_end_lem}

-- What a search in `line` may return: incomplete, refused, or `end` if the line ends here.
abbrev pub Outcome : IoResult (Option ℕ) → ℕ → Type 0 → Type 0
Outcome found end Ends =
    (found ≡ ok none) ⊎ ((found ≡ err IoError.invalid_data) ⊎ ((found ≡ ok (some end)) × Ends))

abbrev pub StartsWithCrNl : List ℕ → Type 0
StartsWithCrNl line = (tail : List ℕ) × (line ≡ cr ∷ nl ∷ tail)

chunk_line_end_lem :
    (b : ℕ) (rest : List ℕ) (idx : ℕ)
    → Outcome (chunk_line_end b rest idx) (idx + 2) (StartsWithCrNl (b ∷ rest))
unfolding chunk_line_end
chunk_line_end_lem b rest idx = elim (Bool-cases (b == cr)) [
  | inr h ↦ inr (inl (ground arith))
  | inl h ↦ after_cr rest h
]
  where
    after_cr :
        (rest : List ℕ)
        → (b == cr) ≡ true
        → Outcome (chunk_line_end b rest idx) (idx + 2) (StartsWithCrNl (b ∷ rest))
    after_cr [] h = inl (ground arith)
    after_cr (n ∷ tail) h = elim (Bool-cases (n == nl)) [
      | inl k ↦ inr (inr (ground arith, (tail, ground arith)))
      | inr k ↦ inr (inl (ground arith))
    ]

-- The loop is left in its first round, with or without an extension.
chunk_header_end_from-Outcome :
    (fuel b : ℕ) (rest : List ℕ) (idx : ℕ)
    → Outcome
        (chunk_header_end_from (suc fuel) (b ∷ rest) idx)
        (idx + 2)
        (StartsWithCrNl (b ∷ rest))
unfolding chunk_header_end_from
chunk_header_end_from-Outcome fuel b rest idx = elim (Bool-cases (b == semicolon)) [
  | inl h ↦ elim (find_chunk_header_extension_end_lem (b ∷ rest)) [
    | inl e ↦ inl (ground arith)
    | inr e ↦ inr (inl (ground arith))
  ]
  | inr h ↦ rw (h) (chunk_line_end_lem b rest idx)
]

-- A line of hexadecimal digits and CR NL.
abbrev pub IsHeader : List ℕ → ℕ → Type 0
IsHeader buf end =
    (digits tail : List ℕ) × (buf ≡ digits ++ cr ∷ nl ∷ tail)
    × All (λ b. is_hex b ≡ true) digits
    × (0 < length digits)
    × (end ≡ length digits + 2)

cr_stops : not (is_hex cr) ≡ true
unfolding is_hex
cr_stops = refl

hex_goes_on : (xs : List ℕ) → All (λ b. is_hex b ≡ true) xs → All (λ b. not (is_hex b) ≡ false) xs
hex_goes_on [] h = tt
hex_goes_on (x ∷ xs) h = (ap not h.0, hex_goes_on xs h.1)

stopped_hex : (xs : List ℕ) → All (λ b. not (is_hex b) ≡ false) xs → All (λ b. is_hex b ≡ true) xs
stopped_hex [] h = tt
stopped_hex (x ∷ xs) h = (ground (arith, h.0), stopped_hex xs h.1)

find_hex_end_lem :
    (digits : List ℕ) (x : ℕ) (tail : List ℕ)
    → All (λ b. is_hex b ≡ true) digits
    → not (is_hex x) ≡ true
    → find_hex_end (digits ++ x ∷ tail) ≡ ok (some (length digits))
unfolding find_hex_end
find_hex_end_lem digits x tail h s =
    scan-stop_start (λ b. not (is_hex b)) digits x tail (hex_goes_on digits h) s

-- After the digits the loop decides.
find_chunk_header_end-after_digits :
    (digits : List ℕ) (x : ℕ) (tail : List ℕ)
    → All (λ b. is_hex b ≡ true) digits
    → 0 < length digits
    → not (is_hex x) ≡ true
    → (fuel : ℕ) × (find_chunk_header_end (digits ++ x ∷ tail)
        ≡ chunk_header_end_from (suc fuel) (x ∷ tail) (length digits))
unfolding find_chunk_header_end
find_chunk_header_end-after_digits [] x tail h k s = absurd (omega arith)
find_chunk_header_end-after_digits (b ∷ digits) x tail h k s = (
  length (digits ++ x ∷ tail),
  rw (h.0, find_hex_end_lem (b ∷ digits) x tail h s, drop-append_self digits (x ∷ tail))
      (ground (arith, length-append digits (x ∷ tail))),
)

loop_on_line_end :
    (fuel : ℕ) (tail : List ℕ) (idx : ℕ)
    → chunk_header_end_from (suc fuel) (cr ∷ nl ∷ tail) idx ≡ ok (some (idx + 2))
unfolding chunk_header_end_from chunk_line_end
loop_on_line_end fuel tail idx = refl

abbrev pub Answer : List ℕ → Type 0
Answer buf =
    (find_chunk_header_end buf ≡ ok none)
    ⊎ ((find_chunk_header_end buf ≡ err IoError.invalid_data)
        ⊎ ((end : ℕ) × (find_chunk_header_end buf ≡ ok (some end)) × IsHeader buf end))

Answer-after_digits :
    (digits : List ℕ) (x : ℕ) (tail : List ℕ)
    → All (λ b. is_hex b ≡ true) digits
    → 0 < length digits
    → not (is_hex x) ≡ true
    → Answer (digits ++ x ∷ tail)
Answer-after_digits digits x tail h k s =
    let (fuel, q) = find_chunk_header_end-after_digits digits x tail h k s in
    elim (chunk_header_end_from-Outcome fuel x tail (length digits)) [
      | inl e ↦ inl (q ∙ e)
      | inr (inl e) ↦ inr (inl (q ∙ e))
      | inr (inr (e, (t, l))) ↦
          inr
            (inr (length digits + 2, q ∙ e, (digits, t, ap (λ line. digits ++ line) l, h, k, refl)))
    ]

-- On every slice the search for the end of a chunk header returns, without a panic and within its
-- fuel: that more bytes are needed, an error, or the end of a header that is there.
pub find_chunk_header_end-Answer : (buf : List ℕ) → Answer buf
unfolding find_chunk_header_end find_hex_end
find_chunk_header_end-Answer [] = inl refl
find_chunk_header_end-Answer (b ∷ rest) = elim (Bool-cases (is_hex b)) [
  | inr h ↦ inr (inl (rw (h) refl))
  | inl h ↦ elim (scan-cases (λ x. not (is_hex x)) (b ∷ rest)) [
    | inl k ↦ inl (rw (h, scan-none (λ x. not (is_hex x)) (b ∷ rest) 0 k) refl)
    | inr ([], x, tail, e, k, s) ↦ absurd (ground (arith, e, h, s))
    | inr (d ∷ ds, x, tail, e, k, s) ↦
        subst Answer (sym e)
          (Answer-after_digits (d ∷ ds) x tail (stopped_hex (d ∷ ds) k) (omega arith) s)
  ]
]

-- A chunk header is accepted, with `end` as its end, exactly if the slice starts with one or more
-- hexadecimal digits and CR NL, and `end` is behind them.
pub find_chunk_header_end_iff :
    (buf : List ℕ) (end : ℕ) → (find_chunk_header_end buf ≡ ok (some end)) ↔ IsHeader buf end
find_chunk_header_end_iff buf end = (accepted, header)
  where
    accepted : find_chunk_header_end buf ≡ ok (some end) → IsHeader buf end
    accepted q = elim (find_chunk_header_end-Answer buf) [
      | inl e ↦ absurd cc
      | inr (inl e) ↦ absurd cc
      | inr (inr (n, e, i)) ↦ let same : n ≡ end = cc in subst (IsHeader buf) same i
    ]

    header : IsHeader buf end → find_chunk_header_end buf ≡ ok (some end)
    header (digits, tail, e, h, k, n) =
        let (fuel, q) = find_chunk_header_end-after_digits digits cr (nl ∷ tail) h k cr_stops in
        rw (e, n) (q ∙ loop_on_line_end fuel tail (length digits))

-- The size of a chunk whose header has one to sixteen digits is the number that they stand for.
pub parse_chunk_header_header :
    (digits tail : List ℕ)
    → All (λ b. is_hex b ≡ true) digits
    → 0 < length digits
    → length digits ≤ 16
    → parse_chunk_header (digits ++ cr ∷ nl ∷ tail) ≡ ok (hex_value 0 digits)
unfolding parse_chunk_header
parse_chunk_header_header [] tail h k w = absurd (omega arith)
parse_chunk_header_header (b ∷ digits) tail h k w =
    rw
      (
        find_hex_end_lem (b ∷ digits) cr (nl ∷ tail) h cr_stops,
        take-append_self digits (cr ∷ nl ∷ tail),
      )
      (parse_hex_lem (b ∷ digits) h k w)

-- A header that is not complete is one that more bytes are needed for.
pub find_chunk_header_end-incomplete :
    (digits : List ℕ)
    → All (λ b. is_hex b ≡ true) digits
    → (find_chunk_header_end digits ≡ ok none)
      × (0 < length digits → find_chunk_header_end (digits ++ cr ∷ []) ≡ ok none)
unfolding find_chunk_header_end find_hex_end chunk_header_end_from chunk_line_end
find_chunk_header_end-incomplete [] h = (refl, λ k. absurd (omega (arith, k)))
find_chunk_header_end-incomplete (d ∷ digits) h = (
  rw (h.0, scan-none (λ x. not (is_hex x)) (d ∷ digits) 0 (hex_goes_on (d ∷ digits) h)) refl,
  λ k. (let (fuel, q) = find_chunk_header_end-after_digits (d ∷ digits) cr [] h k cr_stops in q),
)
