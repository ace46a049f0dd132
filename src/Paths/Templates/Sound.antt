-- ===== src/Paths/Templates/Sound.antt =====
-- The loop of `from_str`: the elements read so far, and that nothing of the text is lost.
use qhttp.Base.{
  ℕ, ◌≡◌, ◌≢◌, ◌<◌, refl, sym, ap, ◌∙◌, Bool, true, false, List, [], ◌∷◌, ◌++◌, append_assoc,
  append-nil, ok, ◌>>◌, refuse_if, ◌==◌, if-cases, is_empty, arith, length, All, inl, inr, >>=-ok,
  subst,
}
use qhttp.Paths.{
  slash, opening, closing, PathElement, fixed, variable, Reading, is_known, read_char, read_chars,
}
use qhttp.Paths.Templates.{
  text, NotBrace, Chain, text-append, All_snoc, Chain-fixed, Chain-variable, is_known-All,
}

abbrev Allowed : Bool → ℕ → Type 0
Allowed true ch = NotBrace ch
Allowed false ch = NotBrace ch × (ch ≢ slash)

-- What was read of the element that is not complete.
abbrev part : Bool → List ℕ → List ℕ
part true element = element
part false element = opening ∷ element

abbrev pub written : Reading → List ℕ
written r = text r.elements ++ part r.is_fixed r.element

pub record IsReading (r : Reading) : Type 0 where
  pub chain : Chain true [] r.elements r.is_fixed
  pub allowed : All (Allowed r.is_fixed) r.element

-- `r` with the character `ch` read.
record After (r : Reading) (ch : ℕ) (r' : Reading) : Type 0 where
  sound : IsReading r'
  all : written r' ≡ written r ++ ch ∷ []

some_chars : (xs : List ℕ) → is_empty xs ≡ false → 0 < length xs
some_chars [] h = cc
some_chars (x ∷ xs) h = omega arith

not_refused : (b : Bool) {u : Unit {0}} → refuse_if {0} {E = Unit {0}} b tt ≡ ok u → b ≡ false
not_refused true h = cc
not_refused false h = refl

extended :
    (es : List PathElement) (el : List ℕ) (b : Bool) (ch : ℕ)
    → IsReading (record { elements = es; element = el; is_fixed = b })
    → Allowed b ch
    → After
        (record { elements = es; element = el; is_fixed = b })
        ch
        (record { elements = es; element = el ++ ch ∷ []; is_fixed = b })
extended es el true ch v a = record {
  sound = record { chain = v.chain; allowed = All_snoc NotBrace el ch v.allowed a };
  all = sym (append_assoc (text es) el (ch ∷ []));
}
extended es el false ch v a = record {
  sound = record { chain = v.chain; allowed = All_snoc (Allowed false) el ch v.allowed a };
  all = sym (append_assoc (text es) (opening ∷ el) (ch ∷ []));
}

fixed_read :
    (es : List PathElement) (el : List ℕ)
    → IsReading (record { elements = es; element = el; is_fixed = true })
    → 0 < length el
    → After
        (record { elements = es; element = el; is_fixed = true })
        opening
        (record { elements = es ++ fixed el ∷ []; element = []; is_fixed = false })
fixed_read es el v n = record {
  sound = record { chain = Chain-fixed true [] es el v.chain (n, v.allowed); allowed = tt };
  all =
      ap (λ (s : List ℕ). s ++ opening ∷ []) (text-append es (fixed el ∷ []))
      ∙ ap (λ (s : List ℕ). (text es ++ s) ++ opening ∷ []) (append-nil el);
}

variable_read :
    (es : List PathElement) (el : List ℕ)
    → IsReading (record { elements = es; element = el; is_fixed = false })
    → 0 < length el
    → is_known el es ≡ false
    → After
        (record { elements = es; element = el; is_fixed = false })
        closing
        (record { elements = es ++ variable el ∷ []; element = []; is_fixed = true })
variable_read es el v n k = record {
  sound = record {
    chain = Chain-variable true [] es el v.chain (n, v.allowed) (is_known-All el es k);
    allowed = tt;
  };
  all =
      append-nil (text (es ++ variable el ∷ []))
      ∙ text-append es (variable el ∷ [])
      ∙ sym (append_assoc (text es) (opening ∷ el) (closing ∷ []));
}

read_char-After :
    (es : List PathElement) (el : List ℕ) (b : Bool) (ch : ℕ) {r' : Reading}
    → let r : Reading = record { elements = es; element = el; is_fixed = b } in
      read_char r ch ≡ ok r' → IsReading r → After r ch r'
unfolding read_char
read_char-After es el true ch {r'} h v =
    let r : Reading = record { elements = es; element = el; is_fixed = true } in
    elim (if-cases (ch == closing) _ _ h) [
      | inl (c, e) ↦ cc
      | inr (c, e) ↦ elim (if-cases (ch == opening) _ _ e) [
        | inl (o, f) ↦
            (let (u, q, g) = >>=-ok (refuse_if (is_empty el) tt) _ f in
              let same : record { elements = es ++ fixed el ∷ []; element = []; is_fixed = false }
                  ≡ r' =
                cc in
              let is : opening ≡ ch = ground (arith, o) in
              subst (λ d. After r d r') is
                (subst (After r opening) same
                  (fixed_read es el v (some_chars el (not_refused (is_empty el) q)))))
        | inr (o, f) ↦
            (let same : record r { element = el ++ ch ∷ [] } ≡ r' = cc in
              subst (After r ch) same (extended es el true ch v (ground (arith, c, o))))
      ]
    ]
read_char-After es el false ch {r'} h v =
    let r : Reading = record { elements = es; element = el; is_fixed = false } in
    elim (if-cases (ch == opening) _ _ h) [
      | inl (o, e) ↦ cc
      | inr (o, e) ↦ elim (if-cases (ch == slash) _ _ e) [
        | inl (s, f) ↦ cc
        | inr (s, f) ↦ elim (if-cases (ch == closing) _ _ f) [
          | inl (c, g) ↦
              (let (u, i, j) =
                  >>=-ok (refuse_if (is_empty el) tt >> refuse_if (is_known el es) tt) _ g in
                let (w, q, k) =
                  >>=-ok (refuse_if (is_empty el) tt) (λ _. refuse_if (is_known el es) tt) i in
                let same : record {
                  elements = es ++ variable el ∷ [];
                  element = [];
                  is_fixed = true;
                }
                    ≡ r' =
                  cc in
                let is : closing ≡ ch = ground (arith, c) in
                subst (λ d. After r d r') is
                  (subst (After r closing) same (
                    variable_read es el v (some_chars el (not_refused (is_empty el) q))
                      (not_refused (is_known el es) k))))
          | inr (c, g) ↦
              (let same : record r { element = el ++ ch ∷ [] } ≡ r' = cc in
                subst (After r ch) same (extended es el false ch v (ground (arith, c, o, s))))
        ]
      ]
    ]

-- What `read_chars` has read: elements that take turns, and all of the text.
pub read_chars-IsReading :
    (s : List ℕ) (r : Reading) {r' : Reading}
    → read_chars s r ≡ ok r'
    → IsReading r
    → IsReading r' × (written r' ≡ written r ++ s)
unfolding read_chars
read_chars-IsReading [] r {r'} h v =
    let same : r ≡ r' = cc in
    subst (λ x. IsReading x × (written x ≡ written r ++ [])) same (v, sym (append-nil (written r)))
read_chars-IsReading (ch ∷ rest) r {r'} h v =
    let (r₁, e, f) = >>=-ok (read_char r ch) (λ x. read_chars rest x) h in
    let a = read_char-After r.elements r.element r.is_fixed ch e v in
    let (w, k) = read_chars-IsReading rest r₁ f a.sound in
    (w, k ∙ ap (λ (x : List ℕ). x ++ rest) a.all ∙ append_assoc (written r) (ch ∷ []) rest)
