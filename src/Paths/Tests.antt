-- ===== src/Paths/Tests.antt =====
-- Templates and paths: "/a{b}.c/{d}/" and "/a12.c/x/y".
use qhttp.Base.{
  ℕ, ◌≡◌, ◌↔◌, refl, List, [], ◌∷◌, Option, none, some, ok, err, arith, or_err, ◌==◌, strip_prefix,
  same_bytes,
}
use qhttp.Paths.{
  fixed, variable, PathParser, PathParserError, Value, strip_slash, count_slashes,
  normalize_and_count_slashes, is_known, read_char, read_chars, from_str, read_until, read_value,
  string_to_json_value, parse_elements, parse, is_path_appropriate,
}
use qhttp.Paths.Templates.Accepted.{Reads, from_str_iff}
use qhttp.Paths.Matching.{Fits, captured, parse-fill}

abbrev template : List ℕ
template = b'/' ∷ b'a' ∷ b'{' ∷ b'b' ∷ b'}' ∷ b'.' ∷ b'c' ∷ b'/' ∷ b'{' ∷ b'd' ∷ b'}' ∷ b'/' ∷ []

abbrev parser : PathParser
parser = record {
  elements =
      fixed (b'/' ∷ b'a' ∷ [])
      ∷ variable (b'b' ∷ [])
      ∷ fixed (b'.' ∷ b'c' ∷ b'/' ∷ [])
      ∷ variable (b'd' ∷ [])
      ∷ [];
  nr_of_slashes = 2;
}

template_read : from_str template ≡ ok parser
unfolding from_str normalize_and_count_slashes strip_slash count_slashes read_chars read_char
    is_known same_bytes
template_read = refl

from_str_iff_example : (from_str template ≡ ok parser) ↔ Reads template parser
from_str_iff_example = from_str_iff template parser

-- No text is a number, and the values are not looked at.
abbrev no_number : List ℕ → Option ℕ
no_number s = none

abbrev all_values : List (List ℕ × Value ℕ) → Option (List (List ℕ × Value ℕ))
all_values map = some map

abbrev values : List (List ℕ)
values = (b'1' ∷ b'2' ∷ []) ∷ (b'x' ∷ []) ∷ []

values-Fits : Fits parser.elements values
values-Fits = omega arith

abbrev tail : List ℕ
tail = b'a' ∷ b'1' ∷ b'2' ∷ b'.' ∷ b'c' ∷ b'/' ∷ b'x' ∷ b'/' ∷ b'y' ∷ []

path_normal : strip_slash (b'/' ∷ tail) ≡ b'/' ∷ tail
unfolding strip_slash
path_normal = refl

parse-fill_example :
    (parse no_number all_values parser (b'/' ∷ tail)
      ≡ or_err
          (all_values (captured no_number parser.elements values))
          PathParserError.json_parse_error)
    × (is_path_appropriate parser (b'/' ∷ tail) ≡ (count_slashes (b'/' ∷ b'y' ∷ []) == 0))
parse-fill_example =
    parse-fill no_number all_values template parser values (b'/' ∷ b'y' ∷ []) tail template_read
      values-Fits refl path_normal

-- "/a1.2.c/x": a value with the character that ends it is an internal error.
value_with_dot :
    parse no_number all_values parser
      (b'/' ∷ b'a' ∷ b'1' ∷ b'.' ∷ b'2' ∷ b'.' ∷ b'c' ∷ b'/' ∷ b'x' ∷ [])
    ≡ err PathParserError.internal
unfolding parse normalize_and_count_slashes strip_slash count_slashes parse_elements read_value
    read_until strip_prefix string_to_json_value same_bytes
value_with_dot = refl
