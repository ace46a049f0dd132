-- ===== src/Parse/Lines.antt =====
-- parse.rs: the ends of the start line and of a header line.
pub mod Ends
pub mod Folds
use qhttp.Base.{
  ℕ, suc, ◌+◌, List, [], ◌∷◌, Option, none, some, Result, ok, err, ◌==◌, if◌then◌else◌, IoResult,
  IoError,
}
use qhttp.Parse.Chars.{cr, nl, is_lws}

-- The loop of `find_start_line_end` over the bytes from `idx` on.
unfoldable pub start_line_end_from : List ℕ → ℕ → IoResult (Option ℕ)
start_line_end_from (a ∷ b ∷ rest) idx =
    let later = start_line_end_from (b ∷ rest) (idx + 1) in
    if a == cr then if b == nl then ok (some (idx + 2)) else err IoError.invalid_data else later
start_line_end_from buf idx = ok none

unfoldable pub find_start_line_end : List ℕ → IoResult (Option ℕ)
find_start_line_end buf = start_line_end_from buf 0

-- The loop of `find_header_end` over the bytes from `idx` on.
unfoldable pub header_end_from : List ℕ → ℕ → IoResult (Option ℕ)
header_end_from (a ∷ b ∷ c ∷ rest) idx =
    let folded = header_end_from rest (idx + 3) in
    let later = header_end_from (b ∷ c ∷ rest) (idx + 1) in
    if a == cr
    then if b == nl
      then if is_lws c then folded else ok (some (idx + 2))
      else err IoError.invalid_data
    else later
header_end_from buf idx = ok none

unfoldable pub find_header_end : List ℕ → IoResult (Option ℕ)
find_header_end [] = ok none
find_header_end (first ∷ rest) =
    if first == cr then err IoError.invalid_data else header_end_from rest 1
