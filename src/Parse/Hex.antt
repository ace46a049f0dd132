-- ===== src/Parse/Hex.antt =====
-- parse.rs: hexadecimal numbers, with the shifts and the sum of a release build on 64 bits: the
-- amount of a shift is taken modulo 64, the bits beyond the width are lost, and the sum wraps.
pub mod Value
use qhttp.Base.{
  ℕ, zero, suc, ◌+◌, ◌-◌, ◌*◌, ◌%◌, ◌^◌, List, [], ◌∷◌, Result, ok, err, ◌>>=◌, or_panic, add_usize,
  length, get_elem?, ◌==◌, ◌||◌, if◌then◌else◌, IoResult, IoError,
}

unfoldable pub parse_hex_byte : ℕ → IoResult ℕ
parse_hex_byte b =
    if b == 48
    then ok 0
    else if b == 49
    then ok 1
    else if b == 50
    then ok 2
    else if b == 51
    then ok 3
    else if b == 52
    then ok 4
    else if b == 53
    then ok 5
    else if b == 54
    then ok 6
    else if b == 55
    then ok 7
    else if b == 56
    then ok 8
    else if b == 57
    then ok 9
    else if (b == 97) || (b == 65)
    then ok 10
    else if (b == 98) || (b == 66)
    then ok 11
    else if (b == 99) || (b == 67)
    then ok 12
    else if (b == 100) || (b == 68)
    then ok 13
    else if (b == 101) || (b == 69)
    then ok 14
    else if (b == 102) || (b == 70)
    then ok 15
    else err IoError.invalid_data

-- `num << i` on `usize`.
unfoldable pub shift_left : ℕ → ℕ → ℕ
shift_left num i = (num * 2 ^ (i % 64)) % 2 ^ 64

-- The loop of `parse_hex`, from the byte at `idx` down to the first.
unfoldable pub parse_hex_from : List ℕ → (idx i total : ℕ) → IoResult ℕ
parse_hex_from buf zero i total = do
  b ← or_panic (get_elem? buf 0)
  num ← parse_hex_byte b
  ok (add_usize total (shift_left num i))
parse_hex_from buf (suc idx) i total = do
  b ← or_panic (get_elem? buf (suc idx))
  num ← parse_hex_byte b
  parse_hex_from buf idx (i + 4) (add_usize total (shift_left num i))

unfoldable pub parse_hex : List ℕ → IoResult ℕ
parse_hex [] = err IoError.invalid_input
parse_hex (b ∷ rest) = parse_hex_from (b ∷ rest) (length rest) 0 0
