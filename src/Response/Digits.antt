-- ===== src/Response/Digits.antt =====
-- The digits that `format!` writes stand for the number.
use qhttp.Base.{
  ℕ, zero, suc, ◌/◌, ◌%◌, ◌^◌, ◌≤◌, ◌<◌, ◌≡◌, true, false, List, [], ◌∷◌, ◌++◌, ltb, arith, length,
  All, Bool-cases, inl, inr, length-append, ltb→lt,
}
use qhttp.Parse.Chars.{is_hex}
use qhttp.Parse.Hex.Value.{hex_digit, hex_value, hex_value-append}
use native.Mathlib.Nat.{pow-suc}
use qhttp.Response.{hex_char, hex_digits}

hex_digit-hex_char : (d : ℕ) → d < 16 → (hex_digit (hex_char d) ≡ d) × (is_hex (hex_char d) ≡ true)
unfolding is_hex
hex_digit-hex_char d h = (ground arith, ground arith)

hex_value-hex_digits_small : (fuel n : ℕ) → n < 16 → hex_value 0 (hex_digits (suc fuel) n) ≡ n
unfolding hex_digits
hex_value-hex_digits_small fuel n h = ground (arith, hex_digit-hex_char n h)

hex_value-hex_digits_large :
    (fuel n : ℕ)
    → ltb n 16 ≡ false
    → hex_value 0 (hex_digits fuel (n / 16)) ≡ n / 16
    → hex_value 0 (hex_digits (suc fuel) n) ≡ n
unfolding hex_digits
hex_value-hex_digits_large fuel n h k =
    rw
      (
        h,
        hex_value-append 0 (hex_digits fuel (n / 16)) (hex_char (n % 16)),
        k,
        (hex_digit-hex_char (n % 16) (omega arith)).0,
      )
      (omega arith)

pub hex_value-hex_digits :
    (fuel n : ℕ) → n < 16 ^ suc fuel → hex_value 0 (hex_digits (suc fuel) n) ≡ n
hex_value-hex_digits zero n h = hex_value-hex_digits_small 0 n (omega arith)
hex_value-hex_digits (suc fuel) n h = elim (Bool-cases (ltb n 16)) [
  | inl k ↦ hex_value-hex_digits_small (suc fuel) n (ltb→lt n 16 k)
  | inr k ↦
      let small : n / 16 < 16 ^ suc fuel = omega (arith, pow-suc 16 (suc fuel)) in
      hex_value-hex_digits_large (suc fuel) n k (hex_value-hex_digits fuel (n / 16) small)
]

hex_snoc :
    (xs : List ℕ) (b : ℕ)
    → All (λ x. is_hex x ≡ true) xs
    → is_hex b ≡ true
    → All (λ x. is_hex x ≡ true) (xs ++ b ∷ [])
hex_snoc [] b h k = (k, tt)
hex_snoc (x ∷ xs) b h k = (h.0, hex_snoc xs b h.1 k)

pub hex_digits-hex : (fuel n : ℕ) → All (λ x. is_hex x ≡ true) (hex_digits fuel n)
unfolding hex_digits
hex_digits-hex zero n = tt
hex_digits-hex (suc fuel) n = elim (Bool-cases (ltb n 16)) [
  | inl k ↦ rw (k) ((hex_digit-hex_char n (ltb→lt n 16 k)).1, tt)
  | inr k ↦ rw (k) (
      hex_snoc (hex_digits fuel (n / 16)) (hex_char (n % 16)) (hex_digits-hex fuel (n / 16))
        (hex_digit-hex_char (n % 16) (omega arith)).1)
]

pub length-hex_digits :
    (fuel n : ℕ)
    → (0 < length (hex_digits (suc fuel) n)) × (length (hex_digits (suc fuel) n) ≤ suc fuel)
unfolding hex_digits
length-hex_digits zero n = ground arith
length-hex_digits (suc fuel) n = ground (
  arith,
  length-hex_digits fuel (n / 16),
  length-append (hex_digits (suc fuel) (n / 16)) (hex_char (n % 16) ∷ []),
)
