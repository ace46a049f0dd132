-- ===== src/Request/Headers/Tests.antt =====
-- Requests whose headers are pairs of texts: a POST request of twelve bytes.
use qhttp.Base.{ℕ, ◌≡◌, ◌↔◌, refl, Bool, false, List, [], ◌∷◌, some, ok, same_bytes, if◌then◌else◌}
use qhttp.Ranges.{parse_u64, parse_digits}
use qhttp.Request.Headers.{Http, fixed, content_length, determine_body_type, announced_body}
use qhttp.Request.Headers.Bodies.{Announces, determine_body_type_iff}

record Sent : Type 0 where
  is_safe : Bool
  headers : List (List ℕ × List ℕ)

abbrev all_with : List ℕ → List (List ℕ × List ℕ) → List (List ℕ)
all_with name [] = []
all_with name ((key, value) ∷ rest) =
    let others = all_with name rest in if same_bytes key name then value ∷ others else others

abbrev pairs : Http
pairs = record {
  Request = Sent;
  HeaderValue = List ℕ;
  is_safe = λ req. req.is_safe;
  get_all = λ req name. all_with name req.headers;
  to_str = λ value. some value;
}

abbrev twelve : Sent
twelve = record { is_safe = false; headers = (content_length, b'1' ∷ b'2' ∷ []) ∷ [] }

determine_body_type_iff_example :
    (determine_body_type pairs twelve ≡ ok (fixed 12)) ↔ Announces pairs twelve (fixed 12)
determine_body_type_iff_example = determine_body_type_iff pairs twelve (fixed 12)

twelve_bytes : determine_body_type pairs twelve ≡ ok (fixed 12)
unfolding determine_body_type announced_body same_bytes parse_u64 parse_digits
twelve_bytes = refl
