-- ===== src/Ranges/Tests.antt =====
-- The parser of Range headers at small headers.
use qhttp.Base.{
  strip_prefix, ◌≡◌, ◌<◌, refl, List, [], ◌∷◌, ◌++◌, some, none, ok, err, arith, length, All,
}
use qhttp.Ranges.{prefix, from_str, parse_ranges, split, parse_range, parse_parts, parse_u64}
use qhttp.Ranges.Bounds.{IsValid, from_str-IsValid}
use qhttp.Ranges.Written.{Digits, IsWritten, join, ranges, from_str_lem}

-- "5-17", "9-"
abbrev first_digits : Digits
first_digits = record { first = 53 ∷ []; last = some (49 ∷ 55 ∷ []) }

abbrev second_digits : Digits
second_digits = record { first = 57 ∷ []; last = none }

abbrev written : List Digits
written = first_digits ∷ second_digits ∷ []

written-IsWritten : All IsWritten written
written-IsWritten = (
  (
    (omega arith, (refl, tt), omega arith),
    ((omega arith, (refl, (refl, tt)), omega arith), omega arith),
  ),
  (((omega arith, (refl, tt), omega arith), tt), tt),
)

from_str_example : from_str (prefix ++ join first_digits (second_digits ∷ [])) ≡ ok (ranges written)
from_str_example = from_str_lem first_digits (second_digits ∷ []) written-IsWritten

from_str-IsValid_example : All IsValid (ranges written) × (0 < length (ranges written))
from_str-IsValid_example =
    from_str-IsValid (prefix ++ join first_digits (second_digits ∷ [])) (ranges written)
      (from_str_lem first_digits (second_digits ∷ []) written-IsWritten)

-- "bytes=-5", a suffix, is refused.
suffix_refused : from_str (prefix ++ 45 ∷ 53 ∷ []) ≡ err tt
unfolding from_str strip_prefix parse_ranges split parse_range parse_parts parse_u64
suffix_refused = refl
