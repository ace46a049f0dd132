-- ===== src/Parse/Blanks/Progress.antt =====
-- White space is skipped in finitely many rounds, and never beyond the end of the slice.
use qhttp.Base.{
  ℕ, zero, suc, ◌+◌, ◌≤◌, ◌≡◌, refl, true, not, List, [], ◌∷◌, ◌==◌, arith, length, drop,
  length-drop, Bool-cases, inl, inr,
}
use qhttp.Parse.Chars.{cr, nl, is_lws}
use qhttp.Parse.Scan.{scan}
use qhttp.Parse.Scan.Bounds.{Within, Within-wider, scan-Within}
use qhttp.Parse.Blanks.{find_lws_end, multi_lws_end_from, find_multi_lws_end}

find_lws_end-Within : (buf : List ℕ) → Within (find_lws_end buf) (length buf)
unfolding find_lws_end
find_lws_end-Within [] = inl refl
find_lws_end-Within (a ∷ rest) = elim (Bool-cases (a == cr)) [
  | inr h ↦ rw (h) (
      Within-wider (scan (λ b. not (is_lws b)) (a ∷ rest) 0) (0 + length (a ∷ rest))
        (length (a ∷ rest)) (omega arith) (scan-Within (λ b. not (is_lws b)) (a ∷ rest) 0))
  | inl h ↦ folded rest h
]
  where
    folded :
        (rest : List ℕ) → (a == cr) ≡ true → Within (find_lws_end (a ∷ rest)) (length (a ∷ rest))
    folded [] h = inl (ground arith)
    folded (b ∷ []) h = inl (ground arith)
    folded (b ∷ c ∷ tail) h = elim (Bool-cases (b == nl)) [
      | inr k ↦ inr (inl (ground arith))
      | inl k ↦ elim (Bool-cases (is_lws c)) [
        | inr l ↦ inr (inr (0, ground arith, omega arith))
        | inl l ↦
            rw (h, k, l)
              (Within-wider (scan (λ x. not (is_lws x)) tail 3) (3 + length tail)
                (length (a ∷ b ∷ c ∷ tail)) (omega arith)
                (scan-Within (λ x. not (is_lws x)) tail 3))
      ]
    ]

multi_lws_end_from-Within :
    (fuel : ℕ) (buf : List ℕ) (idx : ℕ)
    → length buf ≤ fuel
    → Within (multi_lws_end_from fuel buf idx) (idx + length buf)
unfolding multi_lws_end_from
multi_lws_end_from-Within fuel [] idx h = inr (inr (idx, refl, omega arith))
multi_lws_end_from-Within zero (b ∷ rest) idx h = absurd (omega arith)
multi_lws_end_from-Within (suc fuel) (b ∷ rest) idx h = elim (find_lws_end-Within (b ∷ rest)) [
  | inl e ↦ inl (rw (e) refl)
  | inr (inl e) ↦ inr (inl (rw (e) refl))
  | inr (inr (zero, e, k)) ↦ inr (inr (idx, rw (e) refl, omega arith))
  | inr (inr (suc n, e, k)) ↦ rw (e) (
      Within-wider (multi_lws_end_from fuel (drop n rest) (idx + suc n))
        (idx + suc n + length (drop n rest)) (idx + length (b ∷ rest))
        (omega (arith, length-drop n rest))
        (multi_lws_end_from-Within fuel (drop n rest) (idx + suc n)
          (omega (arith, length-drop n rest))))
]

-- On every slice the search for the end of white space returns, without a panic and within its
-- fuel: that more bytes are needed, an error, or an index that is not beyond the end.
find_multi_lws_end-Within : (buf : List ℕ) → Within (find_multi_lws_end buf) (length buf)
unfolding find_multi_lws_end
find_multi_lws_end-Within [] = inl refl
find_multi_lws_end-Within (b ∷ rest) =
    Within-wider (multi_lws_end_from (length (b ∷ rest)) (b ∷ rest) 0) (0 + length (b ∷ rest))
      (length (b ∷ rest)) (omega arith)
      (multi_lws_end_from-Within (length (b ∷ rest)) (b ∷ rest) 0 (omega arith))
