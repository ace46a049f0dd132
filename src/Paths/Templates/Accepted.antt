-- ===== src/Paths/Templates/Accepted.antt =====
-- Reading a template that is written, and which texts are accepted.
use qhttp.Base.{
  ℕ, ◌≡◌, ◌≢◌, ◌<◌, ◌↔◌, refl, sym, ap, ◌∙◌, Bool, true, false, not, List, [], ◌∷◌, ◌++◌,
  append_assoc, append-nil, ok, err, ◌>>◌, refuse_if, ◌==◌, is_empty, arith, length, All, inl, inr,
  >>=-ok, subst, Bool-cases, ==_iff, ap₂,
}
use qhttp.Paths.{
  slash, opening, closing, PathElement, fixed, variable, as_ref, PathParser, strip_slash,
  count_slashes, normalize_and_count_slashes, Reading, read_char, read_chars, all_elements,
  at_start, from_str,
}
use qhttp.Paths.Templates.{
  text, NotBrace, Chain, IsTemplate, text-append, Chain-fixed, All-is_known,
}
use qhttp.Paths.Templates.Sound.{IsReading, written, read_chars-IsReading}

read_fixed :
    (es : List PathElement) (el t rest : List ℕ)
    → All NotBrace t
    → read_chars (t ++ rest) (record { elements = es; element = el; is_fixed = true })
      ≡ read_chars rest (record { elements = es; element = el ++ t; is_fixed = true })
unfolding read_chars read_char
read_fixed es el [] rest h = rw (append-nil el) refl
read_fixed es el (ch ∷ t) rest h =
    ground (arith, h.0, append_assoc el (ch ∷ []) t, read_fixed es (el ++ ch ∷ []) t rest h.1)

read_name :
    (es : List PathElement) (el n rest : List ℕ)
    → All (λ ch. NotBrace ch × (ch ≢ slash)) n
    → read_chars (n ++ rest) (record { elements = es; element = el; is_fixed = false })
      ≡ read_chars rest (record { elements = es; element = el ++ n; is_fixed = false })
unfolding read_chars read_char
read_name es el [] rest h = rw (append-nil el) refl
read_name es el (ch ∷ n) rest h =
    ground (arith, h.0, append_assoc el (ch ∷ []) n, read_name es (el ++ ch ∷ []) n rest h.1)

nonempty : (xs : List ℕ) → 0 < length xs → is_empty xs ≡ false
nonempty [] h = absurd (omega (arith, h))
nonempty (x ∷ xs) h = refl

read_opening :
    (es : List PathElement) (t rest : List ℕ)
    → 0 < length t
    → read_chars (opening ∷ rest) (record { elements = es; element = t; is_fixed = true })
      ≡ read_chars rest (record { elements = es ++ fixed t ∷ []; element = []; is_fixed = false })
unfolding read_chars read_char
read_opening es t rest h = rw (nonempty t h) refl

read_closing :
    (es : List PathElement) (n rest : List ℕ)
    → 0 < length n
    → All (λ e. as_ref e ≢ n) es
    → read_chars (closing ∷ rest) (record { elements = es; element = n; is_fixed = false })
      ≡ read_chars rest (record { elements = es ++ variable n ∷ []; element = []; is_fixed = true })
unfolding read_chars read_char
read_closing es n rest h k = rw (nonempty n h, All-is_known n es k) refl

read_text :
    (seen es : List PathElement) (end : Bool)
    → Chain true seen es end
    → (r : Reading) × (read_chars
          (text es)
          (record { elements = seen; element = []; is_fixed = true })
        ≡ ok r)
      × (r.is_fixed ≡ true)
      × (all_elements r ≡ seen ++ es)
unfolding read_chars
read_text seen [] end h = (_, refl, refl, sym (append-nil seen))
read_text seen (fixed t ∷ []) end h = (
  record { elements = seen; element = t; is_fixed = true },
  read_fixed seen [] t [] h.0.1,
  refl,
  rw (nonempty t h.0.0) refl,
)
read_text seen (fixed t ∷ variable n ∷ es) end h =
    let behind : List PathElement = (seen ++ fixed t ∷ []) ++ variable n ∷ [] in
    let (r, e, k, l) = read_text behind es end h.1.1 in
    (
      r,
      read_fixed seen [] t (opening ∷ (n ++ closing ∷ text es)) h.0.1
          ∙ read_opening seen t (n ++ closing ∷ text es) h.0.0
          ∙ read_name (seen ++ fixed t ∷ []) [] n (closing ∷ text es) h.1.0.0.1
          ∙ read_closing (seen ++ fixed t ∷ []) n (text es) h.1.0.0.0 h.1.0.1
          ∙ e,
      k,
      l
          ∙ append_assoc (seen ++ fixed t ∷ []) (variable n ∷ []) es
          ∙ append_assoc seen (fixed t ∷ []) (variable n ∷ es),
    )
read_text seen (fixed t ∷ fixed u ∷ es) end h = absurd h.1
read_text seen (variable n ∷ es) end h = absurd h

-- The elements that are complete once the loop has ended.
all_elements-IsTemplate :
    (es : List PathElement) (el : List ℕ)
    → let r : Reading = record { elements = es; element = el; is_fixed = true } in
      IsReading r → IsTemplate (all_elements r) × (text (all_elements r) ≡ written r)
all_elements-IsTemplate es [] v = ((true, v.chain), sym (append-nil (text es)))
all_elements-IsTemplate es (ch ∷ el) v = (
  (false, Chain-fixed true [] es (ch ∷ el) v.chain (omega arith, v.allowed)),
  text-append es (fixed (ch ∷ el) ∷ []) ∙ ap (λ s. text es ++ s) (append-nil (ch ∷ el)),
)

-- The text of a parser, as a request's path is normalised.
abbrev pub Reads : List ℕ → PathParser → Type 0
Reads s p =
    ((rest : List ℕ) × (s ≡ slash ∷ rest))
    × IsTemplate p.elements
    × (text p.elements ≡ strip_slash s)
    × (p.nr_of_slashes ≡ count_slashes (strip_slash s))

finished :
    (es : List PathElement) (el : List ℕ) (b : Bool) (s : List ℕ) (n : ℕ) (p : PathParser)
    → let r : Reading = record { elements = es; element = el; is_fixed = b } in
      refuse_if {0} {E = Unit {0}} (not b) tt
          >> ok (record { elements = all_elements r; nr_of_slashes = n })
        ≡ ok p
      → IsReading r
      → written r ≡ s
      → IsTemplate p.elements × (text p.elements ≡ s) × (p.nr_of_slashes ≡ n)
finished es el false s n p h v w = cc
finished es el true s n p h v w =
    let r : Reading = record { elements = es; element = el; is_fixed = true } in
    let (t, k) = all_elements-IsTemplate es el v in
    let same : record { elements = all_elements r; nr_of_slashes = n } ≡ p = cc in
    subst (λ x. IsTemplate x.elements × (text x.elements ≡ s) × (x.nr_of_slashes ≡ n)) same
      (t, k ∙ w, refl)

accepted-Reads : (s : List ℕ) (p : PathParser) → from_str s ≡ ok p → Reads s p
unfolding from_str normalize_and_count_slashes
accepted-Reads [] p h = cc
accepted-Reads (ch ∷ rest) p h = elim (Bool-cases (ch == slash)) [
  | inl e ↦
      (let s : List ℕ = strip_slash (ch ∷ rest) in
        let h₁ = rw e at h in
        let (r, f, h₂) = >>=-ok (read_chars s at_start) _ h₁ in
        let (v, w) = read_chars-IsReading s at_start f (record { chain = refl; allowed = tt }) in
        let (t, k, n) = finished r.elements r.element r.is_fixed s (count_slashes s) p h₂ v w in
        ((rest, rw ((==_iff ch slash).0 e) refl), t, k, n))
  | inr e ↦ (let refused : err tt ≡ ok p = (rw e at h) in cc)
]

Reads-accepted : (s : List ℕ) (p : PathParser) → Reads s p → from_str s ≡ ok p
unfolding from_str normalize_and_count_slashes
Reads-accepted s p ((rest, start), (end, chain), e, n) =
    let (r, f, k, l) = read_text [] p.elements end chain in
    let g : read_chars (strip_slash (slash ∷ rest)) at_start ≡ ok r =
      subst (λ x. read_chars x at_start ≡ ok r) (e ∙ ap strip_slash start) f in
    let m : p.nr_of_slashes ≡ count_slashes (strip_slash (slash ∷ rest)) =
      n ∙ ap (λ x. count_slashes (strip_slash x)) start in
    rw start (rw (g, k) (ap₂ (λ es k. ok (record { elements = es; nr_of_slashes = k })) l (sym m)))

-- Which texts are read, and as what: those with a slash at the front that are, but for a slash at
-- the end, the elements one after the other, the variables in braces. The first element is no
-- variable, fixed elements and variables take turns, none is empty, fixed elements are without braces
-- and names without braces and slashes, and no name is the text of an element before it. The slashes
-- are counted without the one at the end.
pub from_str_iff : (s : List ℕ) (p : PathParser) → (from_str s ≡ ok p) ↔ Reads s p
from_str_iff s p = (accepted-Reads s p, Reads-accepted s p)
