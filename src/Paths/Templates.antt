-- ===== src/Paths/Templates.antt =====
-- The templates that `from_str` of `PathParser` accepts.
pub mod Sound
pub mod Accepted
use qhttp.Base.{
  ℕ, ◌≡◌, ◌≢◌, ◌<◌, ◌↔◌, refl, sym, ap, ◌∙◌, Bool, true, false, not, List, [], ◌∷◌, ◌++◌,
  append_assoc, append-nil, Result, ok, err, ◌>>=◌, ◌>>◌, refuse_if, ◌==◌, if◌then◌else◌, is_empty,
  same_bytes, same_bytes_self, same_bytes-eq, arith, length, All, Bool-cases, inl, inr, >>=-ok,
  subst,
}
use qhttp.Paths.{
  slash, opening, closing, PathElement, fixed, variable, as_ref, PathParser, strip_slash,
  count_slashes, normalize_and_count_slashes, Reading, is_known, read_char, read_chars,
  all_elements, forget, at_start, from_str,
}

-- How a template is written.
abbrev pub text : List PathElement → List ℕ
text [] = []
text (fixed t ∷ es) = t ++ text es
text (variable n ∷ es) = opening ∷ (n ++ closing ∷ text es)

abbrev pub NotBrace : ℕ → Type 0
NotBrace ch = (ch ≢ opening) × (ch ≢ closing)

abbrev pub IsFixed : List ℕ → Type 0
IsFixed t = (0 < length t) × All NotBrace t

abbrev pub IsName : List ℕ → Type 0
IsName n = (0 < length n) × All (λ ch. NotBrace ch × (ch ≢ slash)) n

-- Behind the elements `seen`: fixed and variable elements take turns, `next_fixed` says which is
-- next, before and behind them, and no variable has the text of an element before it.
abbrev pub Chain : Bool → List PathElement → List PathElement → Bool → Type 0
Chain next_fixed seen [] end = next_fixed ≡ end
Chain true seen (fixed t ∷ es) end = IsFixed t × Chain false (seen ++ fixed t ∷ []) es end
Chain false seen (variable n ∷ es) end =
    (IsName n × All (λ e. as_ref e ≢ n) seen) × Chain true (seen ++ variable n ∷ []) es end
Chain true seen (variable n ∷ es) end = ⊥
Chain false seen (fixed t ∷ es) end = ⊥

abbrev pub IsTemplate : List PathElement → Type 0
IsTemplate es = (end : Bool) × Chain true [] es end

pub text-append : (es fs : List PathElement) → text (es ++ fs) ≡ text es ++ text fs
text-append [] fs = refl
text-append (fixed t ∷ es) fs =
    ap (λ s. t ++ s) (text-append es fs) ∙ sym (append_assoc t (text es) (text fs))
text-append (variable n ∷ es) fs =
    ap (λ s. opening ∷ (n ++ closing ∷ s)) (text-append es fs)
    ∙ ap (λ s. opening ∷ s) (sym (append_assoc n (closing ∷ text es) (text fs)))

pub All_snoc {ℓ κ} :
    {A : Type ℓ} (P : A → Type κ) (xs : List A) (x : A) → All P xs → P x → All P (xs ++ x ∷ [])
All_snoc P [] x h p = (p, tt)
All_snoc P (y ∷ xs) x h p = (h.0, All_snoc P xs x h.1 p)

pub Chain-fixed :
    (b : Bool) (seen es : List PathElement) (t : List ℕ)
    → Chain b seen es true
    → IsFixed t
    → Chain b seen (es ++ fixed t ∷ []) false
Chain-fixed true seen [] t h k = (k, refl)
Chain-fixed false seen [] t h k = cc
Chain-fixed true seen (fixed u ∷ es) t h k =
    (h.0, Chain-fixed false (seen ++ fixed u ∷ []) es t h.1 k)
Chain-fixed false seen (variable n ∷ es) t h k =
    (h.0, Chain-fixed true (seen ++ variable n ∷ []) es t h.1 k)
Chain-fixed true seen (variable n ∷ es) t h k = absurd h
Chain-fixed false seen (fixed u ∷ es) t h k = absurd h

pub Chain-variable :
    (b : Bool) (seen es : List PathElement) (n : List ℕ)
    → Chain b seen es false
    → IsName n
    → All (λ e. as_ref e ≢ n) (seen ++ es)
    → Chain b seen (es ++ variable n ∷ []) true
Chain-variable false seen [] n h k f = ((k, rw append-nil at f), refl)
Chain-variable true seen [] n h k f = cc
Chain-variable true seen (fixed u ∷ es) n h k f =
    (h.0, Chain-variable false (seen ++ fixed u ∷ []) es n h.1 k (rw append_assoc f))
Chain-variable false seen (variable m ∷ es) n h k f =
    (h.0, Chain-variable true (seen ++ variable m ∷ []) es n h.1 k (rw append_assoc f))
Chain-variable true seen (variable m ∷ es) n h k f = absurd h
Chain-variable false seen (fixed u ∷ es) n h k f = absurd h

pub is_known-All :
    (n : List ℕ) (es : List PathElement) → is_known n es ≡ false → All (λ e. as_ref e ≢ n) es
unfolding is_known
is_known-All n [] h = tt
is_known-All n (e ∷ es) h = elim (Bool-cases (same_bytes (as_ref e) n)) [
  | inl k ↦ (let c : true ≡ false = (rw k at h) in cc)
  | inr k ↦ (
    λ same. (let c : same_bytes n n ≡ false = (rw same at k) in cc (same_bytes_self n)),
    is_known-All n es (rw k at h),
  )
]

pub All-is_known :
    (n : List ℕ) (es : List PathElement) → All (λ e. as_ref e ≢ n) es → is_known n es ≡ false
unfolding is_known
All-is_known n [] h = refl
All-is_known n (e ∷ es) h = elim (Bool-cases (same_bytes (as_ref e) n)) [
  | inl k ↦ absurd (h.0 (same_bytes-eq (as_ref e) n k))
  | inr k ↦ rw k (All-is_known n es h.1)
]
