-- ===== src/Parse/Scan/First.antt =====
-- `scan` returns the first index whose byte passes the test, and nothing when no byte does.
use qhttp.Base.{
  ℕ, suc, ◌+◌, ◌≡◌, refl, ap, ◌⊎◌, Bool, true, false, List, [], ◌∷◌, ◌++◌, none, some, ok, arith,
  length, All, Bool-cases, inl, inr,
}
use qhttp.Parse.Scan.{scan}

pub scan-stop :
    (stop : ℕ → Bool) (xs : List ℕ) (b : ℕ) (rest : List ℕ) (idx : ℕ)
    → All (λ x. stop x ≡ false) xs
    → stop b ≡ true
    → scan stop (xs ++ b ∷ rest) idx ≡ ok (some (idx + length xs))
unfolding scan
scan-stop stop [] b rest idx hx hb = ground arith
scan-stop stop (x ∷ xs) b rest idx hx hb =
    ground (arith, scan-stop stop xs b rest (suc idx) hx.1 hb, hx.0)

-- The same for a scan of a whole slice.
pub scan-stop_start :
    (stop : ℕ → Bool) (xs : List ℕ) (b : ℕ) (rest : List ℕ)
    → All (λ x. stop x ≡ false) xs
    → stop b ≡ true
    → scan stop (xs ++ b ∷ rest) 0 ≡ ok (some (length xs))
scan-stop_start stop xs b rest hx hb = ground (arith, scan-stop stop xs b rest 0 hx hb)

pub scan-none :
    (stop : ℕ → Bool) (buf : List ℕ) (idx : ℕ)
    → All (λ x. stop x ≡ false) buf
    → scan stop buf idx ≡ ok none
unfolding scan
scan-none stop [] idx h = refl
scan-none stop (x ∷ buf) idx h = ground (arith, scan-none stop buf (suc idx) h.1, h.0)

-- Where the scan stopped: the bytes before fail the test, the one it stopped at passes it.
abbrev pub Stop : (ℕ → Bool) → List ℕ → Type 0
Stop stop buf =
    (xs : List ℕ) × (b : ℕ) × (rest : List ℕ) × (buf ≡ xs ++ b ∷ rest)
    × All (λ x. stop x ≡ false) xs
    × (stop b ≡ true)

pub scan-cases : (stop : ℕ → Bool) (buf : List ℕ) → All (λ x. stop x ≡ false) buf ⊎ Stop stop buf
scan-cases stop [] = inl tt
scan-cases stop (x ∷ buf) = elim (Bool-cases (stop x)) [
  | inl h ↦ inr ([], x, buf, refl, tt, h)
  | inr h ↦ elim (scan-cases stop buf) [
    | inl k ↦ inl (h, k)
    | inr (xs, b, rest, e, k, s) ↦ inr (x ∷ xs, b, rest, ap (◌∷◌ x) e, (h, k), s)
  ]
]
