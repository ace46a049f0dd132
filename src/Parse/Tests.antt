-- ===== src/Parse/Tests.antt =====
-- The theorems on the parsers at small texts.
use qhttp.Base.{
  true, ℕ, ◌≡◌, ◌≢◌, ◌⊎◌, ◌↔◌, refl, List, [], ◌∷◌, ◌++◌, Option, none, some, ok, err, panic, arith,
  IoError,
}
use qhttp.Parse.Chars.{is_lws, is_hex}
use qhttp.Parse.Lines.{find_start_line_end, find_header_end, header_end_from}
use qhttp.Parse.Lines.Ends.{IsStartLine, find_start_line_end_iff}
use qhttp.Parse.Chunk.{find_chunk_header_extension_end, find_chunk_header_end}
use qhttp.Parse.Chunk.Extension.{find_chunk_header_extension_end_lem}
use qhttp.Parse.Chunk.Header.{
  IsHeader, Answer, find_chunk_header_end-Answer, find_chunk_header_end_iff,
}
use qhttp.Parse.StartLine.{Version, http1_1, parse_start_line2}
use qhttp.Parse.StartLine.RoundTrip.{parse_start_line2_lem}
use qhttp.Parse.StartLine.Safety.{parse_start_line2-ne-panic}

-- "1a" CR NL and a byte of the chunk.
abbrev chunk : List ℕ
chunk = 49 ∷ 97 ∷ 13 ∷ 10 ∷ 120 ∷ []

digits_are_hex : (is_hex 49 ≡ true) × ((is_hex 97 ≡ true) × Unit {0})
unfolding is_hex
digits_are_hex = (refl, (refl, tt))

find_chunk_header_end-Answer_example : Answer chunk
find_chunk_header_end-Answer_example = find_chunk_header_end-Answer chunk

find_chunk_header_end_iff_example : (find_chunk_header_end chunk ≡ ok (some 4)) ↔ IsHeader chunk 4
find_chunk_header_end_iff_example = find_chunk_header_end_iff chunk 4

-- ";a=1" CR NL
extension_example :
    (find_chunk_header_extension_end (59 ∷ 97 ∷ 61 ∷ 49 ∷ 13 ∷ 10 ∷ []) ≡ ok none)
    ⊎ (find_chunk_header_extension_end (59 ∷ 97 ∷ 61 ∷ 49 ∷ 13 ∷ 10 ∷ [])
        ≡ err IoError.invalid_data)
extension_example = find_chunk_header_extension_end_lem (59 ∷ 97 ∷ 61 ∷ 49 ∷ 13 ∷ 10 ∷ [])

line_end_example : (find_start_line_end chunk ≡ ok (some 4)) ↔ IsStartLine chunk 4
line_end_example = find_start_line_end_iff chunk 4

-- Readers that take any name but the empty one.
abbrev nonempty : List ℕ → Option (List ℕ)
nonempty [] = none
nonempty (b ∷ rest) = some (b ∷ rest)

-- "GET / HTTP/1.1" CR NL
abbrev get_root : List ℕ
get_root = 71 ∷ 69 ∷ 84 ∷ 32 ∷ 47 ∷ 32 ∷ (http1_1 ++ 13 ∷ 10 ∷ [])

start_line_example :
    parse_start_line2 nonempty nonempty get_root ≡ ok (71 ∷ 69 ∷ 84 ∷ [], 47 ∷ [], Version.http_11)
start_line_example =
    parse_start_line2_lem nonempty nonempty (71 ∷ 69 ∷ 84 ∷ []) (47 ∷ []) Version.http_11
      (omega arith) (refl, (refl, (refl, tt))) (refl, tt) refl refl

start_line-ne-panic_example : parse_start_line2 nonempty nonempty get_root ≢ panic
start_line-ne-panic_example = parse_start_line2-ne-panic nonempty nonempty get_root (omega arith)

-- "a:" CR NL " b" CR NL "c"
abbrev folded : List ℕ
folded = 97 ∷ 58 ∷ 13 ∷ 10 ∷ 32 ∷ 98 ∷ 13 ∷ 10 ∷ 99 ∷ []

folded_found : find_header_end folded ≡ ok (some 8)
unfolding find_header_end header_end_from is_lws
folded_found = refl
