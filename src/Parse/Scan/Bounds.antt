-- ===== src/Parse/Scan/Bounds.antt =====
-- The answers of the searches, with a bound of their index.
use qhttp.Base.{
  ℕ, suc, ◌+◌, ◌≤◌, ◌≡◌, refl, Bool, List, [], ◌∷◌, Option, none, some, ok, err, arith, length,
  IoResult, IoError, Bool-cases, ◌⊎◌, inl, inr,
}
use qhttp.Parse.Scan.{scan}

-- An answer of a search whose indexes stay up to `limit`.
abbrev pub Within : IoResult (Option ℕ) → ℕ → Type 0
Within found limit =
    (found ≡ ok none)
    ⊎ ((found ≡ err IoError.invalid_data) ⊎ ((end : ℕ) × (found ≡ ok (some end)) × (end ≤ limit)))

pub Within-wider : (found : IoResult (Option ℕ)) (k m : ℕ) → k ≤ m → Within found k → Within found m
Within-wider found k m h (inl e) = inl e
Within-wider found k m h (inr (inl e)) = inr (inl e)
Within-wider found k m h (inr (inr (end, e, l))) = inr (inr (end, e, omega arith))

pub scan-Within :
    (stop : ℕ → Bool) (buf : List ℕ) (idx : ℕ) → Within (scan stop buf idx) (idx + length buf)
unfolding scan
scan-Within stop [] idx = inl refl
scan-Within stop (b ∷ rest) idx = elim (Bool-cases (stop b)) [
  | inl h ↦ inr (inr (idx, ground arith, ground arith))
  | inr h ↦ rw (h) (
      Within-wider (scan stop rest (suc idx)) (suc idx + length rest) (idx + length (b ∷ rest))
        (omega arith) (scan-Within stop rest (suc idx)))
]
