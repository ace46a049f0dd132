-- ===== src/Paths/Matching.antt =====
-- Paths that are built from a template and values for its variables, and what `parse` makes of them.
use qhttp.Base.{
  ℕ, ◌+◌, ◌≡◌, ◌≢◌, ◌<◌, refl, sym, ap, ◌∙◌, Bool, true, false, List, [], ◌∷◌, ◌++◌, append_assoc,
  append-nil, Option, ok, or_err, ltb, ◌==◌, is_empty, arith, length, All, strip_prefix_self,
}
use qhttp.Paths.{
  slash, closing, PathElement, fixed, variable, PathParser, PathParserError, strip_slash,
  count_slashes, normalize_and_count_slashes, read_until, read_to_slash, read_value, Value,
  string_to_json_value, parse_elements, parse, from_str, is_path_appropriate,
}
use qhttp.Paths.Templates.{text, Chain}
use qhttp.Paths.Templates.Accepted.{from_str_iff}

-- A value before the elements `es`: it has no slash, and not the first character of the fixed element
-- behind it; at the end of the template it is not empty.
abbrev pub IsValue : (es : List PathElement) → List ℕ → Type 0
IsValue [] v = (0 < length v) × All (λ ch. ch ≢ slash) v
IsValue (fixed [] ∷ es) v = ⊥
IsValue (fixed (c ∷ t) ∷ es) v = All (λ ch. (ch ≢ slash) × (ch ≢ c)) v
IsValue (variable n ∷ es) v = ⊥

-- A value for each variable.
abbrev pub Fits : List PathElement → List (List ℕ) → Type 0
Fits [] [] = Unit
Fits [] (v ∷ vs) = ⊥
Fits (fixed t ∷ es) vs = (0 < length t) × Fits es vs
Fits (variable n ∷ es) [] = ⊥
Fits (variable n ∷ es) (v ∷ vs) = IsValue es v × Fits es vs

abbrev pub fill : List PathElement → List (List ℕ) → List ℕ
fill [] vs = []
fill (fixed t ∷ es) vs = t ++ fill es vs
fill (variable n ∷ es) [] = []
fill (variable n ∷ es) (v ∷ vs) = v ++ fill es vs

-- The part of a path behind the template is empty or starts with a slash.
abbrev pub Follows : List ℕ → Type 0
Follows [] = Unit
Follows (ch ∷ rest) = ch ≡ slash

count-append : (xs ys : List ℕ) → count_slashes (xs ++ ys) ≡ count_slashes xs + count_slashes ys
unfolding count_slashes
count-append [] ys = omega arith
count-append (x ∷ xs) ys = ground (arith, count-append xs ys)

count_none : (xs : List ℕ) → All (λ ch. ch ≢ slash) xs → count_slashes xs ≡ 0
unfolding count_slashes
count_none [] h = refl
count_none (x ∷ xs) h = ground (arith, h.0, count_none xs h.1)

no_slash {κ} :
    {P : ℕ → Type κ} (xs : List ℕ)
    → ((ch : ℕ) → P ch → ch ≢ slash)
    → All P xs
    → All (λ ch. ch ≢ slash) xs
no_slash [] f h = tt
no_slash (x ∷ xs) f h = (f x h.0, no_slash xs f h.1)

count_value : (es : List PathElement) (v : List ℕ) → IsValue es v → count_slashes v ≡ 0
count_value [] v h = count_none v h.1
count_value (fixed [] ∷ es) v h = absurd h
count_value (fixed (c ∷ t) ∷ es) v h = count_none v (no_slash v (λ ch k. k.0) h)
count_value (variable n ∷ es) v h = absurd h

-- Values add no slash, and names have none.
count-fill :
    (b : Bool) (seen es : List PathElement) (end : Bool) (vs : List (List ℕ))
    → Chain b seen es end
    → Fits es vs
    → count_slashes (fill es vs) ≡ count_slashes (text es)
unfolding count_slashes
count-fill b seen [] end vs h k = refl
count-fill true seen (fixed t ∷ es) end vs h k = omega (
  arith,
  count-append t (fill es vs),
  count-append t (text es),
  count-fill false (seen ++ fixed t ∷ []) es end vs h.1 k.1,
)
count-fill false seen (variable n ∷ es) end (v ∷ vs) h k = omega (
  arith,
  count-append v (fill es vs),
  count-append n (closing ∷ text es),
  count_value es v k.0,
  count_none n (no_slash n (λ ch a. a.1) h.0.0.1),
  count-fill true (seen ++ variable n ∷ []) es end vs h.1 k.1,
)
count-fill false seen (variable n ∷ es) end [] h k = absurd k
count-fill true seen (variable n ∷ es) end vs h k = absurd h
count-fill false seen (fixed t ∷ es) end vs h k = absurd h

not_empty : (xs : List ℕ) (y : ℕ) (ys : List ℕ) → is_empty (xs ++ y ∷ ys) ≡ false
not_empty [] y ys = refl
not_empty (x ∷ xs) y ys = refl

read_until-value :
    (c : ℕ) (v rest : List ℕ)
    → All (λ ch. (ch ≢ slash) × (ch ≢ c)) v
    → read_until c (v ++ c ∷ rest) ≡ ok v
unfolding read_until
read_until-value c [] rest h = ground arith
read_until-value c (x ∷ v) rest h = ground (arith, h.0, read_until-value c v rest h.1)

read_to_slash-value :
    (v rest : List ℕ) → All (λ ch. ch ≢ slash) v → Follows rest → read_to_slash (v ++ rest) ≡ v
unfolding read_to_slash
read_to_slash-value [] [] h f = refl
read_to_slash-value [] (ch ∷ rest) h f = ground (arith, f)
read_to_slash-value (x ∷ v) rest h f = ground (arith, h.0, read_to_slash-value v rest h.1 f)

module _ {Number : Type 0} (number_from_str : List ℕ → Option Number) where
  -- The variables with their values.
  abbrev pub captured : List PathElement → List (List ℕ) → List (List ℕ × Value Number)
  captured [] vs = []
  captured (fixed t ∷ es) vs = captured es vs
  captured (variable n ∷ es) [] = []
  captured (variable n ∷ es) (v ∷ vs) = (n, string_to_json_value number_from_str v) ∷ captured es vs

  parse_fixed :
      (c : ℕ) (t : List ℕ) (es : List PathElement) (path : List ℕ)
      (map : List (List ℕ × Value Number))
      → parse_elements number_from_str (fixed (c ∷ t) ∷ es) ((c ∷ t) ++ path) map
        ≡ parse_elements number_from_str es path map
  unfolding parse_elements
  parse_fixed c t es path map = rw (strip_prefix_self (c ∷ t) path) refl

  parse_last :
      (n : List ℕ) (x : ℕ) (v rest : List ℕ) (map : List (List ℕ × Value Number))
      → All (λ ch. ch ≢ slash) (x ∷ v)
      → Follows rest
      → parse_elements number_from_str (variable n ∷ []) ((x ∷ v) ++ rest) map
        ≡ ok (map ++ (n, string_to_json_value number_from_str (x ∷ v)) ∷ [])
  unfolding parse_elements read_value
  parse_last n x v rest map h f =
      rw (read_to_slash-value (x ∷ v) rest h f, strip_prefix_self (x ∷ v) rest) refl

  parse_variable :
      (n : List ℕ) (c : ℕ) (t : List ℕ) (es : List PathElement) (v path : List ℕ)
      (map : List (List ℕ × Value Number))
      → All (λ ch. (ch ≢ slash) × (ch ≢ c)) v
      → parse_elements number_from_str (variable n ∷ fixed (c ∷ t) ∷ es) (v ++ c ∷ path) map
        ≡ parse_elements number_from_str
            (fixed (c ∷ t) ∷ es)
            (c ∷ path)
            (map ++ (n, string_to_json_value number_from_str v) ∷ [])
  unfolding parse_elements read_value
  parse_variable n c t es v path map h =
      rw (not_empty v c path, read_until-value c v path h, strip_prefix_self v (c ∷ path)) refl

  parse_elements_lem :
      (es : List PathElement) (vs : List (List ℕ)) (rest : List ℕ)
      (map : List (List ℕ × Value Number))
      → Fits es vs
      → Follows rest
      → parse_elements number_from_str es (fill es vs ++ rest) map ≡ ok (map ++ captured es vs)
  unfolding parse_elements
  parse_elements_lem [] [] rest map h f = ap (λ m. ok m) (sym (append-nil map))
  parse_elements_lem [] (v ∷ vs) rest map h f = absurd h
  parse_elements_lem (fixed [] ∷ es) vs rest map h f = absurd (omega (arith, h.0))
  parse_elements_lem (fixed (c ∷ t) ∷ es) vs rest map h f =
      ap (λ path. parse_elements number_from_str (fixed (c ∷ t) ∷ es) path map)
        (append_assoc (c ∷ t) (fill es vs) rest)
      ∙ parse_fixed c t es (fill es vs ++ rest) map
      ∙ parse_elements_lem es vs rest map h.1 f
  parse_elements_lem (variable n ∷ es) [] rest map h f = absurd h
  parse_elements_lem (variable n ∷ []) ([] ∷ vs) rest map h f = absurd (omega (arith, h.0.0))
  parse_elements_lem (variable n ∷ []) ((x ∷ v) ∷ []) rest map h f =
      ap (λ path. parse_elements number_from_str (variable n ∷ []) (path ++ rest) map)
        (append-nil (x ∷ v))
      ∙ parse_last n x v rest map h.0.1 f
  parse_elements_lem (variable n ∷ []) (v ∷ w ∷ vs) rest map h f = absurd h.1
  parse_elements_lem (variable n ∷ fixed [] ∷ es) (v ∷ vs) rest map h f = absurd h.0
  parse_elements_lem (variable n ∷ variable m ∷ es) (v ∷ vs) rest map h f = absurd h.0
  parse_elements_lem (variable n ∷ fixed (c ∷ t) ∷ es) (v ∷ vs) rest map h f =
      let entry : List ℕ × Value Number = (n, string_to_json_value number_from_str v) in
      ap (λ path. parse_elements number_from_str (variable n ∷ fixed (c ∷ t) ∷ es) path map)
        (append_assoc v (fill (fixed (c ∷ t) ∷ es) vs) rest)
      ∙ parse_variable n c t es v ((t ++ fill es vs) ++ rest) map h.0
      ∙ parse_elements_lem (fixed (c ∷ t) ∷ es) vs rest (map ++ entry ∷ []) h.1 f
      ∙ ap (λ m. ok m) (append_assoc map (entry ∷ []) (captured es vs))

  -- A path that is, but for a slash at the end, a template with a value for each variable, and behind
  -- it nothing or a part that starts with a slash, is matched by the parser of the template: it
  -- captures exactly these values, in their order, under the names of the variables. The parser is
  -- the appropriate one exactly if the part behind has no slash.
  pub parse-fill :
      {T : Type 0} (from_value : List (List ℕ × Value Number) → Option T) (template : List ℕ)
      (p : PathParser) (vs : List (List ℕ)) (rest tail : List ℕ)
      → from_str template ≡ ok p
      → Fits p.elements vs
      → Follows rest
      → strip_slash (slash ∷ tail) ≡ fill p.elements vs ++ rest
      → (parse number_from_str from_value p (slash ∷ tail)
          ≡ or_err (from_value (captured p.elements vs)) PathParserError.json_parse_error)
        × (is_path_appropriate p (slash ∷ tail) ≡ (count_slashes rest == 0))
  unfolding parse normalize_and_count_slashes is_path_appropriate
  parse-fill from_value template p vs rest tail accepted h f e =
      let (start, (end, chain), written, n) = (from_str_iff template p).0 accepted in
      let many : count_slashes (strip_slash (slash ∷ tail)) ≡ p.nr_of_slashes + count_slashes rest =
        rw (e, n, ← written)
          (count-append (fill p.elements vs) rest
            ∙ ap (λ k. k + count_slashes rest) (count-fill true [] p.elements end vs chain h)) in
      let enough : ltb (p.nr_of_slashes + count_slashes rest) p.nr_of_slashes ≡ false =
        ground arith in
      (
        rw (many, e, parse_elements_lem p.elements vs rest [] h f) (rw enough refl),
        rw many (ground arith),
      )
