-- ===== src/Ranges.antt =====
-- util/byterange.rs: the byte ranges of a Range header. A string is the list of its bytes; its error
-- is `()`, and what is logged before an error is left out. `ltb end begin` is `*begin > *end`.
pub mod Bounds
pub mod Written
mod Tests
use qhttp.Base.{
  ℕ, ◌+◌, ◌-◌, ◌*◌, ◌^◌, Bool, true, false, List, [], ◌∷◌, Option, none, some, ltb, leb, ◌==◌, ◌&&◌,
  if◌then◌else◌, Result, ok, err, ◌>>=◌, ◌>>◌, refuse_if, or_err, is_empty, strip_prefix,
}

pub record ByteRange : Type 0 where
  pub begin : Option ℕ
  pub end : Option ℕ

abbrev pub comma : ℕ
comma = 44

abbrev pub hyphen : ℕ
hyphen = 45

-- "bytes="
abbrev pub prefix : List ℕ
prefix = 98 ∷ 121 ∷ 116 ∷ 101 ∷ 115 ∷ 61 ∷ []

-- `str::split` at a byte: one part more than there are separators.
abbrev pub push_front : ℕ → List (List ℕ) → List (List ℕ)
push_front b [] = (b ∷ []) ∷ []
push_front b (part ∷ parts) = (b ∷ part) ∷ parts

unfoldable pub split : (separator : ℕ) → List ℕ → List (List ℕ)
split separator [] = [] ∷ []
split separator (b ∷ s) =
    let parts = split separator s in if b == separator then [] ∷ parts else push_front b parts

abbrev pub is_digit : ℕ → Bool
is_digit b = leb 48 b && leb b 57

-- The loop of `str::parse::<u64>`, with its checks for digits and for an overflow.
unfoldable pub parse_digits : (total : ℕ) → List ℕ → Result (Unit {0}) ℕ
parse_digits total [] = ok total
parse_digits total (b ∷ rest) =
    let parsed = parse_digits (total * 10 + (b - 48)) rest in
    if is_digit b && ltb (total * 10 + (b - 48)) (2 ^ 64) then parsed else err tt

-- `str::parse::<u64>`: a plus sign may stand before the digits, of which there is at least one.
abbrev pub strip_plus : List ℕ → List ℕ
strip_plus [] = []
strip_plus (b ∷ rest) = if b == 43 then rest else b ∷ rest

unfoldable pub parse_u64 : List ℕ → Result (Unit {0}) ℕ
parse_u64 s = do refuse_if (is_empty (strip_plus s)) tt; parse_digits 0 (strip_plus s)

unfoldable pub parse_end : List ℕ → Result (Unit {0}) (Option ℕ)
parse_end [] = ok none
parse_end (b ∷ rest) = parse_u64 (b ∷ rest) >>= λ end. ok (some end)

-- The test `begin > end`.
abbrev pub is_backward : ℕ → Option ℕ → Bool
is_backward begin none = false
is_backward begin (some end) = ltb end begin

unfoldable pub parse_parts : List (List ℕ) → Result (Unit {0}) ByteRange
parse_parts (first ∷ second ∷ []) = do
  begin ← parse_u64 first
  end ← parse_end second
  refuse_if (is_backward begin end) tt
  ok (record { begin = some begin; end = end })
parse_parts parts = err tt

unfoldable pub parse_range : List ℕ → Result (Unit {0}) ByteRange
parse_range range = do refuse_if (is_empty range) tt; parse_parts (split hyphen range)

-- The loop over `ranges`.
unfoldable pub parse_ranges : List (List ℕ) → Result (Unit {0}) (List ByteRange)
parse_ranges [] = ok []
parse_ranges (range ∷ ranges) = do
  first ← parse_range range
  rest ← parse_ranges ranges
  ok (first ∷ rest)

unfoldable pub from_str : List ℕ → Result (Unit {0}) (List ByteRange)
from_str s = do
  refuse_if (is_empty s) tt
  ranges ← or_err (strip_prefix prefix s) tt
  parse_ranges (split comma ranges)
