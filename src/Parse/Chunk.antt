-- ===== src/Parse/Chunk.antt =====
-- parse.rs: the header of a chunk of the chunked transfer encoding.
pub mod Extension
pub mod Header
use qhttp.Base.{
  ℕ, zero, suc, ◌+◌, Bool, true, false, not, List, [], ◌∷◌, Option, none, some, Result, ok, err,
  panic, ◌>>=◌, ◌>>◌, refuse_if, or_panic, leb, ◌==◌, ◌&&◌, ◌||◌, if◌then◌else◌, length, get_elem?,
  take, drop, IoResult, IoError,
}
use qhttp.Parse.Chars.{cr, nl, dq, semicolon, equals, is_text, is_hex}
use qhttp.Parse.Scan.{find_hex_end, find_token_end}
use qhttp.Parse.Hex.{parse_hex}

-- The loop of `find_quoted_string_end` over the bytes from `idx` on.
unfoldable pub quoted_string_end_from : List ℕ → ℕ → Bool → IoResult (Option ℕ)
quoted_string_end_from [] idx ignore_next = ok none
quoted_string_end_from (b ∷ rest) idx ignore_next =
    let later = quoted_string_end_from rest (idx + 1) false in
    if ignore_next || (is_text b && not (b == dq))
    then later
    else if b == dq
    then ok (some (idx + 1))
    else err IoError.invalid_data

unfoldable pub find_quoted_string_end : List ℕ → IoResult (Option ℕ)
find_quoted_string_end [] = ok none
find_quoted_string_end (b ∷ rest) =
    if not (b == dq) then err IoError.invalid_data else quoted_string_end_from (b ∷ rest) 0 false

-- What follows the name of an extension that ends at `idx`: the sign and the value.
unfoldable pub extension_value_end : List ℕ → ℕ → IoResult (Option ℕ)
extension_value_end buf idx = if leb (length buf) (idx + 1) then ok none else do
  sign ← or_panic (get_elem? buf idx)
  refuse_if (not (sign == equals)) IoError.invalid_data
  first ← or_panic (get_elem? buf (idx + 1))
  (if first == dq
      then find_quoted_string_end (drop (idx + 1) buf)
      else find_token_end (drop (idx + 1) buf))

unfoldable pub find_chunk_header_extension_end : List ℕ → IoResult (Option ℕ)
find_chunk_header_extension_end [] = ok none
find_chunk_header_extension_end (b ∷ rest) =
    if not (b == semicolon)
    then err IoError.invalid_data
    else find_token_end rest
      >>= elim [ none ↦ ok none | some idx ↦ extension_value_end (b ∷ rest) idx ]

-- A line that goes on at `idx` with something else than an extension: it has to end with CR NL.
unfoldable pub chunk_line_end : ℕ → List ℕ → ℕ → IoResult (Option ℕ)
chunk_line_end b rest idx = if b == cr then after_cr rest else err IoError.invalid_data
  where
    after_cr : List ℕ → IoResult (Option ℕ)
    after_cr [] = ok none
    after_cr (n ∷ tail) = if n == nl then ok (some (idx + 2)) else err IoError.invalid_data

-- The loop of `find_chunk_header_end` from `idx` on; `fuel` bounds its rounds.
unfoldable pub chunk_header_end_from : (fuel : ℕ) → List ℕ → ℕ → IoResult (Option ℕ)
chunk_header_end_from fuel [] idx = ok none
chunk_header_end_from zero (b ∷ rest) idx = panic
chunk_header_end_from (suc fuel) (b ∷ rest) idx =
    let extension = find_chunk_header_extension_end (b ∷ rest) >>= elim [
      | none ↦ ok none
      | some end ↦ chunk_header_end_from fuel (drop end (b ∷ rest)) (idx + end)
    ] in
    if b == semicolon then extension else chunk_line_end b rest idx

unfoldable pub find_chunk_header_end : List ℕ → IoResult (Option ℕ)
find_chunk_header_end [] = ok none
find_chunk_header_end (b ∷ rest) =
    if not (is_hex b)
    then err IoError.invalid_data
    else find_hex_end (b ∷ rest) >>= elim [
      | none ↦ ok none
      | some idx ↦
          if leb (length (b ∷ rest)) idx
          then ok none
          else chunk_header_end_from (length (b ∷ rest)) (drop idx (b ∷ rest)) idx
    ]

unfoldable pub parse_chunk_header : List ℕ → IoResult ℕ
parse_chunk_header [] = err IoError.invalid_input
parse_chunk_header (b ∷ rest) =
    find_hex_end (b ∷ rest)
    >>= elim [ none ↦ err IoError.other | some idx ↦ parse_hex (take idx (b ∷ rest)) ]
