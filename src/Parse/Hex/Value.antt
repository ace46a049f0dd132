-- ===== src/Parse/Hex/Value.antt =====
-- The value of hexadecimal digits, and that `parse_hex` computes it.
use qhttp.Base.{
  subst, ℕ, zero, suc, ◌+◌, ◌-◌, ◌*◌, ◌^◌, ◌≤◌, ◌<◌, ◌≡◌, refl, ap, ◌∙◌, true, List, [], ◌∷◌, ◌++◌,
  some, ok, if◌then◌else◌, leb, arith, length, take, get_elem?, All, take-length,
}
use qhttp.Parse.Chars.{is_hex}
use qhttp.Parse.Hex.{parse_hex_byte, shift_left, parse_hex_from, parse_hex}
use native.Mathlib.Nat.{pow-le-pow_right, pow-suc, mul-le-mul_right, mod-eq_of_lt}

abbrev pub hex_digit : ℕ → ℕ
hex_digit b = if leb 97 b then b - 87 else if leb 65 b then b - 55 else b - 48

-- The number that digits stand for, the most significant first, after the digits of `high`.
abbrev pub hex_value : (high : ℕ) → List ℕ → ℕ
hex_value high [] = high
hex_value high (b ∷ rest) = hex_value (high * 16 + hex_digit b) rest

pub hex_value-append :
    (high : ℕ) (xs : List ℕ) (b : ℕ)
    → hex_value high (xs ++ b ∷ []) ≡ hex_value high xs * 16 + hex_digit b
hex_value-append high [] b = refl
hex_value-append high (x ∷ xs) b = hex_value-append (high * 16 + hex_digit x) xs b

parse_hex_byte_lem :
    (b : ℕ) → is_hex b ≡ true → (parse_hex_byte b ≡ ok (hex_digit b)) × (hex_digit b < 16)
unfolding parse_hex_byte is_hex
parse_hex_byte_lem b h = (ground arith, ground arith)

take-suc : (xs : List ℕ) (n b : ℕ) → get_elem? xs n ≡ some b → take (suc n) xs ≡ take n xs ++ b ∷ []
take-suc [] n b h = cc
take-suc (x ∷ xs) zero b h = ground arith
take-suc (x ∷ xs) (suc n) b h = ap (◌∷◌ x) (take-suc xs n b h)

get_elem?-hex :
    (xs : List ℕ) (n : ℕ)
    → All (λ b. is_hex b ≡ true) xs
    → n < length xs
    → (b : ℕ) × (get_elem? xs n ≡ some b) × (is_hex b ≡ true)
get_elem?-hex [] n h k = absurd (omega arith)
get_elem?-hex (x ∷ xs) zero h k = (x, refl, h.0)
get_elem?-hex (x ∷ xs) (suc n) h k = get_elem?-hex xs n h.1 (omega arith)

next_place : (i : ℕ) → 2 ^ (i + 4) ≡ 2 ^ i * 16
next_place i =
    let four : suc (suc (suc (suc i))) ≡ i + 4 = omega arith in
    subst (λ n. 2 ^ n ≡ 2 ^ i * 16) four
      (omega (
        arith,
        pow-suc 2 i,
        pow-suc 2 (suc i),
        pow-suc 2 (suc (suc i)),
        pow-suc 2 (suc (suc (suc i))),
      ))

-- A digit shifted to its place keeps below the next place.
shift_left_lem :
    (d i : ℕ)
    → d < 16
    → i + 4 ≤ 64
    → (d * 2 ^ i + 2 ^ i ≤ 2 ^ (i + 4)) × (2 ^ (i + 4) ≤ 2 ^ 64) × (shift_left d i ≡ d * 2 ^ i)
unfolding shift_left
shift_left_lem d i h k =
    (shifted, room, rw (mod-eq_of_lt small) (mod-eq_of_lt (omega (arith, shifted, room, one))))
  where
    small : i < 64
    small = omega arith

    digit : d ≤ 15
    digit = omega arith

    one : 1 ≤ 2 ^ i
    one = pow-le-pow_right {n = 2} (omega arith) {i = 0} {j = i} (omega arith)

    shifted : d * 2 ^ i + 2 ^ i ≤ 2 ^ (i + 4)
    shifted = rw (next_place i) (omega (arith, mul-le-mul_right (2 ^ i) digit))

    room : 2 ^ (i + 4) ≤ 2 ^ 64
    room = pow-le-pow_right {n = 2} (omega arith) {i = i + 4} {j = 64} k

place : (v d p total : ℕ) → total + d * p + v * (p * 16) ≡ total + (v * 16 + d) * p
place v d p total = grind arith

places : (v d i total : ℕ) → total + d * 2 ^ i + v * 2 ^ (i + 4) ≡ total + (v * 16 + d) * 2 ^ i
places v d i total = rw (next_place i) (place v d (2 ^ i) total)

parse_hex_from_lem :
    (buf : List ℕ) (idx i total : ℕ)
    → All (λ b. is_hex b ≡ true) buf
    → idx < length buf
    → i + 4 * suc idx ≤ 64
    → total < 2 ^ i
    → parse_hex_from buf idx i total ≡ ok (total + hex_value 0 (take (suc idx) buf) * 2 ^ i)
unfolding parse_hex_from
parse_hex_from_lem buf zero i total h k w t =
    let (b, e, hb) = get_elem?-hex buf 0 h k in
    let (p, d) = parse_hex_byte_lem b hb in
    let (s, r, q) = shift_left_lem (hex_digit b) i d (omega arith) in
    rw (e, p, q, take-suc buf 0 b e) (ap ok (mod-eq_of_lt (omega (arith, s, r, t)) ∙ omega arith))
parse_hex_from_lem buf (suc idx) i total h k w t =
    let (b, e, hb) = get_elem?-hex buf (suc idx) h k in
    let (p, d) = parse_hex_byte_lem b hb in
    let (s, r, q) = shift_left_lem (hex_digit b) i d (omega arith) in
    rw (e, p, q, take-suc buf (suc idx) b e, hex_value-append 0 (take (suc idx) buf) b)
      (ap (parse_hex_from buf idx (i + 4)) (mod-eq_of_lt (omega (arith, s, r, t)))
        ∙ parse_hex_from_lem buf idx (i + 4) (total + hex_digit b * 2 ^ i) h (omega arith)
            (omega arith) (omega (arith, s, t))
        ∙ ap ok (places (hex_value 0 (take (suc idx) buf)) (hex_digit b) i total))

-- Of one to sixteen hexadecimal digits, `parse_hex` returns the number that they stand for.
pub parse_hex_lem :
    (buf : List ℕ)
    → All (λ b. is_hex b ≡ true) buf
    → 0 < length buf
    → length buf ≤ 16
    → parse_hex buf ≡ ok (hex_value 0 buf)
unfolding parse_hex
parse_hex_lem [] h k w = absurd (omega arith)
parse_hex_lem (b ∷ rest) h k w =
    parse_hex_from_lem (b ∷ rest) (length rest) 0 0 h (omega arith) (omega arith) (omega arith)
    ∙ ap ok (omega (arith, ap (hex_value 0) (take-length (b ∷ rest))))
