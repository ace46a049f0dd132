-- ===== src/Paths.antt =====
-- util/path.rs: templates of paths with variables, and the paths that they match. A text is the list
-- of its characters. `serde_json` is a parameter: which texts are numbers, and what the variables are
-- deserialised to.
pub mod Templates
pub mod Matching
mod Tests
use qhttp.Base.{
  ℕ, suc, Bool, true, false, not, List, [], ◌∷◌, ◌++◌, Option, none, some, Result, ok, err, panic,
  ◌>>=◌, ◌>>◌, refuse_if, or_err, ltb, ◌==◌, if◌then◌else◌, is_empty, strip_prefix, same_bytes,
}

abbrev pub slash : ℕ
slash = b'/'

abbrev pub opening : ℕ
opening = b'{'

abbrev pub closing : ℕ
closing = b'}'

pub data PathElement : Type 0 where
  fixed variable : List ℕ → PathElement

-- `AsRef<str>`
abbrev pub as_ref : PathElement → List ℕ
as_ref (fixed s) = s
as_ref (variable s) = s

pub record PathParser : Type 0 where
  pub elements : List PathElement
  pub nr_of_slashes : ℕ

pub data PathParserError : Type 0 where
  internal json_parse_error empty_path no_slash_at_the_beginning invalid_slash : PathParserError
  unexpected_end_of_path invalid_number_of_slashes : PathParserError

-- `path.strip_suffix("/").unwrap_or(path)`
unfoldable pub strip_slash : List ℕ → List ℕ
strip_slash [] = []
strip_slash (ch ∷ []) = if ch == slash then [] else ch ∷ []
strip_slash (ch ∷ next ∷ rest) = ch ∷ strip_slash (next ∷ rest)

unfoldable pub count_slashes : List ℕ → ℕ
count_slashes [] = 0
count_slashes (ch ∷ rest) = let n = count_slashes rest in if ch == slash then suc n else n

unfoldable pub normalize_and_count_slashes : List ℕ → Result PathParserError (List ℕ × ℕ)
normalize_and_count_slashes [] = err PathParserError.empty_path
normalize_and_count_slashes (ch ∷ rest) = do
  refuse_if (not (ch == slash)) PathParserError.no_slash_at_the_beginning
  ok (strip_slash (ch ∷ rest), count_slashes (strip_slash (ch ∷ rest)))

-- The variables of the loop of `from_str`; `fixed` is `is_fixed`.
pub record Reading : Type 0 where
  pub elements : List PathElement
  pub element : List ℕ
  pub is_fixed : Bool

-- Whether a name is the text of an element before it.
unfoldable pub is_known : List ℕ → List PathElement → Bool
is_known name [] = false
is_known name (compare ∷ elements) =
    let known = is_known name elements in if same_bytes (as_ref compare) name then true else known

-- One character of a template.
unfoldable pub read_char : Reading → ℕ → Result (Unit {0}) Reading
read_char r ch =
    if r.is_fixed
    then (if ch == closing
        then err tt
        else if ch == opening
        then (refuse_if (is_empty r.element) tt
            >> ok (record {
              elements = r.elements ++ fixed r.element ∷ [];
              element = [];
              is_fixed = false;
            }))
        else ok (record r { element = r.element ++ ch ∷ [] }))
    else if ch == opening
    then err tt
    else if ch == slash
    then err tt
    else if ch == closing
    then (refuse_if (is_empty r.element) tt
        >> refuse_if (is_known r.element r.elements) tt
        >> ok (record {
          elements = r.elements ++ variable r.element ∷ [];
          element = [];
          is_fixed = true;
        }))
    else ok (record r { element = r.element ++ ch ∷ [] })

unfoldable pub read_chars : List ℕ → Reading → Result (Unit {0}) Reading
read_chars [] r = ok r
read_chars (ch ∷ rest) r = read_char r ch >>= λ r'. read_chars rest r'

abbrev pub all_elements : Reading → List PathElement
all_elements r = if is_empty r.element then r.elements else r.elements ++ fixed r.element ∷ []

-- `.map_err(|_| ())`
abbrev pub forget {ℓ} : {A : Type ℓ} → Result PathParserError A → Result (Unit {0}) A
forget (ok a) = ok a
forget (err e) = err tt
forget panic = panic

abbrev pub at_start : Reading
at_start = record { elements = []; element = []; is_fixed = true }

unfoldable pub from_str : List ℕ → Result (Unit {0}) PathParser
from_str s = do
  (s', nr_of_slashes) ← forget (normalize_and_count_slashes s)
  r ← read_chars s' at_start
  refuse_if (not r.is_fixed) tt
  ok (record { elements = all_elements r; nr_of_slashes = nr_of_slashes })

unfoldable pub is_path_appropriate : PathParser → List ℕ → Bool
is_path_appropriate p path = elim (normalize_and_count_slashes path) [
  | ok (s, nr_of_slashes) ↦ nr_of_slashes == p.nr_of_slashes
  | _ ↦ false
]

-- The part of a path that a variable stands for, up to the character `search`.
unfoldable pub read_until : (search : ℕ) → List ℕ → Result PathParserError (List ℕ)
read_until search [] = err PathParserError.unexpected_end_of_path
read_until search (ch ∷ rest) =
    let more = read_until search rest >>= λ prefix. ok (ch ∷ prefix) in
    if ch == search then ok [] else if ch == slash then err PathParserError.invalid_slash else more

-- The part that the last variable stands for.
unfoldable pub read_to_slash : List ℕ → List ℕ
read_to_slash [] = []
read_to_slash (ch ∷ rest) = let more = ch ∷ read_to_slash rest in if ch == slash then [] else more

abbrev pub first_char : List ℕ → Option ℕ
first_char [] = none
first_char (ch ∷ rest) = some ch

-- The value of a variable, before the elements `rest`.
unfoldable pub read_value : (rest : List PathElement) → List ℕ → Result PathParserError (List ℕ)
read_value [] path = ok (read_to_slash path)
read_value (element ∷ rest) path = do
  search ← or_err (first_char (as_ref element)) PathParserError.internal
  read_until search path

pub data Value (Number : Type 0) : Type 0 where
  null : Value Number
  bool : Bool → Value Number
  number : Number → Value Number
  string : List ℕ → Value Number

-- "null", "true" and "false"
abbrev pub null_text : List ℕ
null_text = b'n' ∷ b'u' ∷ b'l' ∷ b'l' ∷ []

abbrev pub true_text : List ℕ
true_text = b't' ∷ b'r' ∷ b'u' ∷ b'e' ∷ []

abbrev pub false_text : List ℕ
false_text = b'f' ∷ b'a' ∷ b'l' ∷ b's' ∷ b'e' ∷ []

module _ {Number : Type 0} (number_from_str : List ℕ → Option Number) where
  unfoldable pub string_to_json_value : List ℕ → Value Number
  string_to_json_value s =
      if same_bytes s null_text
      then Value.null
      else if same_bytes s true_text
      then Value.bool true
      else if same_bytes s false_text
      then Value.bool false
      else elim (number_from_str s) [ some n ↦ Value.number n | none ↦ Value.string s ]

  -- The loop of `parse` over the elements. `map` holds the insertions in their order.
  unfoldable pub parse_elements :
      List PathElement
      → List ℕ
      → (map : List (List ℕ × Value Number)) → Result PathParserError (List (List ℕ × Value Number))
  parse_elements [] path map = ok map
  parse_elements (fixed prefix ∷ rest) path map =
      let more = or_err (strip_prefix prefix path) PathParserError.internal >>= λ path'.
      parse_elements rest path' map in
      if is_empty path then ok map else more
  parse_elements (variable name ∷ rest) path map =
      let more = read_value rest path >>= λ prefix.
      or_err (strip_prefix prefix path) PathParserError.internal >>= λ path'.
      parse_elements rest path' (map ++ (name, string_to_json_value prefix) ∷ []) in
      if is_empty path then ok map else more

  unfoldable pub parse :
      {T : Type 0}
      → (from_value : List (List ℕ × Value Number) → Option T) → PathParser
      → List ℕ
      → Result PathParserError T
  parse from_value p path = do
    (path', nr_of_slashes) ← normalize_and_count_slashes path
    refuse_if (ltb nr_of_slashes p.nr_of_slashes) PathParserError.invalid_number_of_slashes
    map ← parse_elements p.elements path' []
    or_err (from_value map) PathParserError.json_parse_error
