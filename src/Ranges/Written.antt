-- ===== src/Ranges/Written.antt =====
-- Ranges that are written with decimal digits, and what the header of them is parsed to.
use qhttp.Base.{
  strip_prefix, is_empty, ℕ, ◌+◌, ◌-◌, ◌*◌, ◌^◌, ◌≤◌, ◌<◌, ◌≡◌, ◌≢◌, refl, List, [], ◌∷◌, ◌++◌,
  Option, none, some, true, false, arith, length, All, ok,
}
use qhttp.Ranges.{
  ByteRange, is_digit, is_backward, prefix, parse_digits, parse_u64, parse_end, parse_parts,
  parse_range, parse_ranges, from_str, split, comma, hyphen,
}

-- The number that digits stand for, after the digits of `high`.
abbrev pub value : (high : ℕ) → List ℕ → ℕ
value high [] = high
value high (b ∷ rest) = value (high * 10 + (b - 48)) rest

-- One or more digits of a `u64`.
abbrev pub IsNumber : List ℕ → Type 0
IsNumber digits =
    (0 < length digits) × All (λ b. is_digit b ≡ true) digits × (value 0 digits < 2 ^ 64)

-- The digits of a range: of its first byte, and of its last where it is given.
pub record Digits : Type 0 where
  pub first : List ℕ
  pub last : Option (List ℕ)

abbrev pub IsEnd : ℕ → Option (List ℕ) → Type 0
IsEnd begin none = Unit
IsEnd begin (some last) = IsNumber last × (begin ≤ value 0 last)

abbrev pub IsWritten : Digits → Type 0
IsWritten d = IsNumber d.first × IsEnd (value 0 d.first) d.last

abbrev pub text_of : Option (List ℕ) → List ℕ
text_of none = []
text_of (some last) = last

abbrev pub text : Digits → List ℕ
text d = d.first ++ hyphen ∷ text_of d.last

abbrev pub end_of : Option (List ℕ) → Option ℕ
end_of none = none
end_of (some last) = some (value 0 last)

abbrev pub range : Digits → ByteRange
range d = record { begin = some (value 0 d.first); end = end_of d.last }

abbrev pub ranges : List Digits → List ByteRange
ranges [] = []
ranges (d ∷ ds) = range d ∷ ranges ds

-- The ranges with a comma between each two, at least one.
abbrev pub join : Digits → List Digits → List ℕ
join d [] = text d
join d (e ∷ ds) = text d ++ comma ∷ join e ds

split-none :
    (separator : ℕ) (xs : List ℕ) → All (λ b. b ≢ separator) xs → split separator xs ≡ xs ∷ []
unfolding split
split-none separator [] h = refl
split-none separator (x ∷ xs) h = rw (split-none separator xs h.1) (ground (arith, h.0))

split-first :
    (separator : ℕ) (xs ys : List ℕ)
    → All (λ b. b ≢ separator) xs
    → split separator (xs ++ separator ∷ ys) ≡ xs ∷ split separator ys
unfolding split
split-first separator [] ys h = ground arith
split-first separator (x ∷ xs) ys h = rw (split-first separator xs ys h.1) (ground (arith, h.0))

value-le : (high : ℕ) (xs : List ℕ) → high ≤ value high xs
value-le high [] = omega arith
value-le high (x ∷ xs) = omega (arith, value-le (high * 10 + (x - 48)) xs)

parse_digits_lem :
    (high : ℕ) (xs : List ℕ)
    → All (λ b. is_digit b ≡ true) xs
    → value high xs < 2 ^ 64
    → parse_digits high xs ≡ ok (value high xs)
unfolding parse_digits
parse_digits_lem high [] h k = refl
parse_digits_lem high (x ∷ xs) h k =
    rw (parse_digits_lem (high * 10 + (x - 48)) xs h.1 k)
      (ground (arith, h.0, k, value-le (high * 10 + (x - 48)) xs))

parse_u64_lem : (xs : List ℕ) → IsNumber xs → parse_u64 xs ≡ ok (value 0 xs)
unfolding parse_u64
parse_u64_lem [] h = absurd (omega (arith, h.0))
parse_u64_lem (x ∷ xs) h = ground (arith, h.1.0, parse_digits_lem 0 (x ∷ xs) h.1 h.2)

digits-ne : (c : ℕ) (xs : List ℕ) → c < 48 → All (λ b. is_digit b ≡ true) xs → All (λ b. b ≢ c) xs
digits-ne c [] k h = tt
digits-ne c (x ∷ xs) k h = (ground (arith, h.0), digits-ne c xs k h.1)

append-ne :
    (c : ℕ) (xs ys : List ℕ)
    → All (λ b. b ≢ c) xs
    → All (λ b. b ≢ c) ys
    → All (λ b. b ≢ c) (xs ++ ys)
append-ne c [] ys h k = k
append-ne c (x ∷ xs) ys h k = (h.0, append-ne c xs ys h.1 k)

text_of-ne :
    (c begin : ℕ) (last : Option (List ℕ))
    → c < 48
    → IsEnd begin last
    → All (λ b. b ≢ c) (text_of last)
text_of-ne c begin none k h = tt
text_of-ne c begin (some last) k h = digits-ne c last k h.0.1

text-ne_comma : (d : Digits) → IsWritten d → All (λ b. b ≢ comma) (text d)
text-ne_comma d h =
    append-ne comma d.first (hyphen ∷ text_of d.last) (digits-ne comma d.first (omega arith) h.0.1)
      (ground arith, text_of-ne comma (value 0 d.first) d.last (omega arith) h.1)

parse_end_lem :
    (begin : ℕ) (last : Option (List ℕ))
    → IsEnd begin last
    → (parse_end (text_of last) ≡ ok (end_of last)) × (is_backward begin (end_of last) ≡ false)
unfolding parse_end
parse_end_lem begin none h = (refl, refl)
parse_end_lem begin (some []) h = absurd (omega (arith, h.0.0))
parse_end_lem begin (some (x ∷ xs)) h = (rw (parse_u64_lem (x ∷ xs) h.0) refl, ground (arith, h.1))

nonempty : (xs ys : List ℕ) → 0 < length xs → is_empty (xs ++ ys) ≡ false
nonempty [] ys h = absurd (omega (arith, h))
nonempty (x ∷ xs) ys h = refl

parse_range_lem : (d : Digits) → IsWritten d → parse_range (text d) ≡ ok (range d)
unfolding parse_range parse_parts
parse_range_lem d h =
    let (e, b) = parse_end_lem (value 0 d.first) d.last h.1 in
    rw
      (
        nonempty d.first (hyphen ∷ text_of d.last) h.0.0,
        split-first hyphen d.first (text_of d.last) (digits-ne hyphen d.first (omega arith) h.0.1),
        split-none hyphen (text_of d.last)
            (text_of-ne hyphen (value 0 d.first) d.last (omega arith) h.1),
        parse_u64_lem d.first h.0,
        e,
        b,
      )
      refl

parse_ranges_lem :
    (d : Digits) (ds : List Digits)
    → All IsWritten (d ∷ ds)
    → parse_ranges (split comma (join d ds)) ≡ ok (ranges (d ∷ ds))
unfolding parse_ranges
parse_ranges_lem d [] h =
    rw (split-none comma (text d) (text-ne_comma d h.0), parse_range_lem d h.0) refl
parse_ranges_lem d (e ∷ ds) h =
    rw
      (
        split-first comma (text d) (join e ds) (text-ne_comma d h.0),
        parse_range_lem d h.0,
        parse_ranges_lem e ds h.1,
      )
      refl

-- A header that is written as "bytes=" and ranges with commas between them, each of decimal digits,
-- a hyphen and, where the range has an end, decimal digits, is parsed to these ranges. The numbers
-- are below 2^64 and no range ends before it begins.
pub from_str_lem :
    (d : Digits) (ds : List Digits)
    → All IsWritten (d ∷ ds)
    → from_str (prefix ++ join d ds) ≡ ok (ranges (d ∷ ds))
unfolding from_str strip_prefix
from_str_lem d ds h = parse_ranges_lem d ds h
