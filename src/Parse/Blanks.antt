-- ===== src/Parse/Blanks.antt =====
-- parse.rs: the end of white space, which may fold a line (CR NL and a blank).
pub mod Progress
use qhttp.Base.{
  ℕ, zero, suc, ◌+◌, Bool, not, List, [], ◌∷◌, Option, none, some, Result, ok, err, panic, ◌>>=◌,
  ◌==◌, if◌then◌else◌, length, drop, IoResult, IoError,
}
use qhttp.Parse.Chars.{cr, nl, is_lws}
use qhttp.Parse.Scan.{scan}

unfoldable pub find_lws_end : List ℕ → IoResult (Option ℕ)
find_lws_end [] = ok none
find_lws_end (a ∷ rest) =
    if a == cr then folded_end rest else scan (λ b. not (is_lws b)) (a ∷ rest) 0
  where
    folded_end : List ℕ → IoResult (Option ℕ)
    folded_end (b ∷ c ∷ tail) =
        if not (b == nl)
        then err IoError.invalid_data
        else if not (is_lws c)
        then ok (some 0)
        else scan (λ x. not (is_lws x)) tail 3
    folded_end short = ok none

-- The loop of `find_multi_lws_end` from `idx` on; `fuel` bounds its rounds, each of which moves
-- `idx` on.
unfoldable pub multi_lws_end_from : (fuel : ℕ) → List ℕ → ℕ → IoResult (Option ℕ)
multi_lws_end_from fuel [] idx = ok (some idx)
multi_lws_end_from zero (b ∷ rest) idx = panic
multi_lws_end_from (suc fuel) (b ∷ rest) idx = find_lws_end (b ∷ rest) >>= elim [
  | none ↦ ok none
  | some zero ↦ ok (some idx)
  | some (suc n) ↦ multi_lws_end_from fuel (drop (suc n) (b ∷ rest)) (idx + suc n)
]

unfoldable pub find_multi_lws_end : List ℕ → IoResult (Option ℕ)
find_multi_lws_end [] = ok none
find_multi_lws_end (b ∷ rest) = multi_lws_end_from (length (b ∷ rest)) (b ∷ rest) 0
