-- ===== src/Parse/Chunk/Extension.antt =====
-- What the source does with chunk extensions and quoted strings.
use qhttp.Base.{
  leb, subst, ℕ, ◌+◌, ◌≡◌, refl, sym, false, not, List, [], ◌∷◌, ◌++◌, none, some, ok, err, ◌==◌,
  arith, length, get_elem?, All, IoError, Bool-cases, ◌⊎◌, inl, inr,
}
use qhttp.Parse.Chars.{dq, semicolon, equals, is_text, is_token, is_seperator, is_char, is_ctl}
use qhttp.Parse.Scan.{find_token_end}
use qhttp.Parse.Scan.First.{scan-cases, scan-stop_start, scan-none}
use qhttp.Parse.Chunk.{
  quoted_string_end_from, find_quoted_string_end, extension_value_end,
  find_chunk_header_extension_end,
}

-- Whatever follows the opening quote, the quoted string is said to end right behind it: the loop
-- starts at the opening quote and takes it for the closing one.
pub find_quoted_string_end_lem : (rest : List ℕ) → find_quoted_string_end (dq ∷ rest) ≡ ok (some 1)
unfolding find_quoted_string_end quoted_string_end_from is_text
find_quoted_string_end_lem rest = refl

equals-is_token : (b : ℕ) → not (is_token b) ≡ false → (b == equals) ≡ false
unfolding is_token is_seperator is_char is_ctl
equals-is_token b h = ground arith

-- The byte that the code tests for the sign is the last one of the name.
get_elem?-last :
    (a : ℕ) (xs rest : List ℕ)
    → All (λ x. not (is_token x) ≡ false) xs
    → (a == equals) ≡ false
    → (c : ℕ) × (get_elem? (a ∷ xs ++ rest) (length xs) ≡ some c) × ((c == equals) ≡ false)
get_elem?-last a [] rest h k = (a, refl, k)
get_elem?-last a (x ∷ xs) rest h k = get_elem?-last x xs rest h.1 (equals-is_token x h.0)

extension_value_end-refused :
    (buf : List ℕ) (idx c : ℕ)
    → get_elem? buf idx ≡ some c
    → (c == equals) ≡ false
    → (extension_value_end buf idx ≡ ok none)
      ⊎ (extension_value_end buf idx ≡ err IoError.invalid_data)
unfolding extension_value_end
extension_value_end-refused buf idx c h k = elim (Bool-cases (leb (length buf) (idx + 1))) [
  | inl e ↦ inl (ground arith)
  | inr e ↦ inr (ground arith)
]

-- No chunk extension is ever accepted: every slice is refused, or reported as incomplete.
pub find_chunk_header_extension_end_lem :
    (buf : List ℕ)
    → (find_chunk_header_extension_end buf ≡ ok none)
      ⊎ (find_chunk_header_extension_end buf ≡ err IoError.invalid_data)
unfolding find_chunk_header_extension_end find_token_end
find_chunk_header_extension_end_lem [] = inl refl
find_chunk_header_extension_end_lem (b ∷ rest) = elim (Bool-cases (b == semicolon)) [
  | inr h ↦ inr (ground arith)
  | inl h ↦ elim (scan-cases (λ x. not (is_token x)) rest) [
    | inl k ↦ inl (ground (arith, scan-none (λ x. not (is_token x)) rest 0 k))
    | inr (xs, x, tail, e, k, s) ↦
        let (c, hc, hk) = get_elem?-last b xs (x ∷ tail) k (ground arith) in
        subst
          (λ whole.
            (find_chunk_header_extension_end (b ∷ whole) ≡ ok none)
            ⊎ (find_chunk_header_extension_end (b ∷ whole) ≡ err IoError.invalid_data))
          (sym e)
          (rw (h, scan-stop_start (λ y. not (is_token y)) xs x tail k s)
            (extension_value_end-refused (b ∷ xs ++ x ∷ tail) (length xs) c hc hk))
  ]
]
