-- ===== src/Request/Headers.antt =====
-- request.rs: what is read from the headers of a request. The requests and headers of the http crate
-- are a parameter.
pub mod Bodies
mod Tests
use qhttp.Base.{
  ℕ, Bool, false, not, List, [], ◌∷◌, ◌++◌, Option, none, some, Result, ok, err, panic, ◌>>=◌, ◌>>◌,
  refuse_if, or_err, ltb, if◌then◌else◌, same_bytes, IoResult, IoError,
}
use qhttp.Ranges
use qhttp.Ranges.{ByteRange, parse_u64}

-- The http crate: whether the method of a request is safe, the values of the headers with a name, in
-- their order, and their text, if they are texts.
pub record Http : Type 1 where
  pub Request : Type 0
  pub HeaderValue : Type 0
  pub is_safe : Request → Bool
  pub get_all : Request → List ℕ → List HeaderValue
  pub to_str : HeaderValue → Option (List ℕ)

pub data BodyType : Type 0 where
  no_body : BodyType
  fixed : ℕ → BodyType
  chunked : BodyType

-- `HttpError` of lib.rs, by its status code.
pub record HttpError : Type 0 where
  pub status : ℕ
  pub close : Bool

-- "transfer-encoding"
abbrev pub transfer_encoding : List ℕ
transfer_encoding =
    b't' ∷ b'r' ∷ b'a' ∷ b'n' ∷ b's' ∷ b'f' ∷ b'e' ∷ b'r' ∷ b'-' ∷ b'e' ∷ b'n' ∷ b'c' ∷ b'o' ∷ b'd'
    ∷ b'i' ∷ b'n' ∷ b'g' ∷ []

-- "content-length"
abbrev pub content_length : List ℕ
content_length =
    b'c' ∷ b'o' ∷ b'n' ∷ b't' ∷ b'e' ∷ b'n' ∷ b't' ∷ b'-' ∷ b'l' ∷ b'e' ∷ b'n' ∷ b'g' ∷ b't' ∷ b'h'
    ∷ []

-- "expect"
abbrev pub expect : List ℕ
expect = b'e' ∷ b'x' ∷ b'p' ∷ b'e' ∷ b'c' ∷ b't' ∷ []

-- "range"
abbrev pub range : List ℕ
range = b'r' ∷ b'a' ∷ b'n' ∷ b'g' ∷ b'e' ∷ []

-- "chunked"
abbrev pub chunked_text : List ℕ
chunked_text = b'c' ∷ b'h' ∷ b'u' ∷ b'n' ∷ b'k' ∷ b'e' ∷ b'd' ∷ []

-- "100-continue"
abbrev pub continue_text : List ℕ
continue_text =
    b'1' ∷ b'0' ∷ b'0' ∷ b'-' ∷ b'c' ∷ b'o' ∷ b'n' ∷ b't' ∷ b'i' ∷ b'n' ∷ b'u' ∷ b'e' ∷ []

-- `.ok()`
abbrev pub forget {ℓ} : {E : Type 0} {A : Type ℓ} → Result E A → Option A
forget (ok a) = some a
forget r = none

-- `.map_err(|_| Error::new(ErrorKind::Other, …))`
abbrev pub or_other {ℓ} : {E : Type 0} {A : Type ℓ} → Result E A → Result IoError A
or_other (ok a) = ok a
or_other (err e) = err IoError.other
or_other panic = panic

abbrev pub first {ℓ} : {A : Type ℓ} → List A → Option A
first [] = none
first (a ∷ rest) = some a

-- `join`
unfoldable pub join : (separator : List ℕ) → List (List ℕ) → List ℕ
join separator [] = []
join separator (s ∷ []) = s
join separator (s ∷ t ∷ rest) = s ++ separator ++ join separator (t ∷ rest)

module _ (http : Http) where
  open http use {Request, HeaderValue, is_safe, get_all, to_str}

  unfoldable pub get_header : Request → List ℕ → Option (List ℕ)
  get_header req name = elim (first (get_all req name)) [ some value ↦ to_str value | none ↦ none ]

  -- The values that are texts.
  abbrev pub texts : List HeaderValue → List (List ℕ)
  texts [] = []
  texts (value ∷ rest) = elim (to_str value) [ some s ↦ s ∷ texts rest | none ↦ texts rest ]

  unfoldable pub get_header_full_with_seperator :
      Request → List ℕ → (separator : List ℕ) → Option (List ℕ)
  get_header_full_with_seperator req name separator = elim (texts (get_all req name)) [
    | [] ↦ none
    | s ∷ rest ↦ some (join separator (s ∷ rest))
  ]

  unfoldable pub get_header_full : Request → List ℕ → Option (List ℕ)
  get_header_full req name = get_header_full_with_seperator req name (b' ' ∷ [])

  unfoldable pub expects_continue : Request → Bool
  expects_continue req = elim (get_header req expect) [
    | some value ↦ same_bytes value continue_text
    | none ↦ false
  ]

  unfoldable pub get_content_length : Request → Option ℕ
  get_content_length req = elim (get_header req content_length) [
    | some value ↦ forget (parse_u64 value)
    | none ↦ none
  ]

  unfoldable pub get_range : Request → Result HttpError (Option (List ByteRange))
  get_range req = elim (get_header req range) [
    | none ↦ ok none
    | some value ↦ elim (Ranges.from_str value) [
      | ok ranges ↦ ok (some ranges)
      | err e ↦ err (record { status = 400; close = false })
      | panic ↦ panic
    ]
  ]

  -- The body that a Content-Length header announces; `otherwise` without one.
  unfoldable pub announced_body : Request → (otherwise : BodyType) → IoResult BodyType
  announced_body req otherwise = elim (first (get_all req content_length)) [
    | none ↦ ok otherwise
    | some value ↦ do
      text ← or_err (to_str value) IoError.other
      len ← or_other (parse_u64 text)
      ok (if ltb 0 len then fixed len else no_body)
  ]

  unfoldable pub determine_body_type : Request → IoResult BodyType
  determine_body_type req =
      if is_safe req then ok no_body else elim (first (get_all req transfer_encoding)) [
        | some value ↦ do
          text ← or_err (to_str value) IoError.other
          refuse_if (not (same_bytes text chunked_text)) IoError.invalid_data
          ok chunked
        | none ↦ announced_body req no_body
      ]

  unfoldable pub determine_body_type_h2 : Request → IoResult BodyType
  determine_body_type_h2 req =
      if is_safe req then ok no_body else elim (first (get_all req transfer_encoding)) [
        | some value ↦ do
          text ← or_err (to_str value) IoError.other
          refuse_if (same_bytes text chunked_text) IoError.invalid_data
          announced_body req chunked
        | none ↦ announced_body req chunked
      ]
