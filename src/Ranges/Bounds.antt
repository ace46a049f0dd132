-- ===== src/Ranges/Bounds.antt =====
-- What holds of the ranges that the header is parsed to.
use qhttp.Base.{
  strip_prefix, is_empty, ℕ, ◌+◌, ◌-◌, ◌*◌, ◌^◌, ◌≤◌, ◌<◌, ◌≡◌, refl, List, [], ◌∷◌, Option, none,
  some, ltb, arith, length, All, ok, inl, inr, if-cases, >>=-ok, ◌&&◌, Bool-cases, or_err,
  refuse_if, false, subst, suc, sym, ◌==◌, ap, ◌>>=◌,
}
use qhttp.Ranges.{
  push_front, ByteRange, is_digit, is_backward, prefix, parse_digits, parse_u64, strip_plus,
  parse_end, parse_parts, parse_range, parse_ranges, from_str, split, comma, hyphen,
}

-- A range has a first byte, and its last byte, where it has one, is not before it; both are `u64`.
abbrev pub EndsAfter : ℕ → Option ℕ → Type 0
EndsAfter begin none = Unit
EndsAfter begin (some end) = (begin ≤ end) × (end < 2 ^ 64)

abbrev pub IsValid : ByteRange → Type 0
IsValid r = (begin : ℕ) × (r.begin ≡ some begin) × (begin < 2 ^ 64) × EndsAfter begin r.end

parse_digits-lt :
    (total : ℕ) (s : List ℕ) {n : ℕ} → total < 2 ^ 64 → parse_digits total s ≡ ok n → n < 2 ^ 64
unfolding parse_digits
parse_digits-lt total [] {n} h k = ground (arith, h, k)
parse_digits-lt total (b ∷ rest) {n} h k =
    elim (if-cases (is_digit b && ltb (total * 10 + (b - 48)) (2 ^ 64)) _ _ k) [
      | inl (fits, e) ↦ parse_digits-lt (total * 10 + (b - 48)) rest (ground (arith, fits)) e
      | inr (big, e) ↦ cc
    ]

parse_u64-lt : (s : List ℕ) {n : ℕ} → parse_u64 s ≡ ok n → n < 2 ^ 64
unfolding parse_u64
parse_u64-lt s {n} h =
    let (done, e, k) =
      >>=-ok (refuse_if (is_empty (strip_plus s)) tt) (λ _. parse_digits 0 (strip_plus s)) h in
    parse_digits-lt 0 (strip_plus s) (omega arith) k

parse_end-lt : (s : List ℕ) {end : ℕ} → parse_end s ≡ ok (some end) → end < 2 ^ 64
unfolding parse_end
parse_end-lt [] {end} h = cc
parse_end-lt (b ∷ rest) {end} h =
    let (n, e, k) = >>=-ok (parse_u64 (b ∷ rest)) (λ n. ok (some n)) h in
    let same : n ≡ end = cc in parse_u64-lt (b ∷ rest) (rw same at e)

ends_after :
    (begin : ℕ) (second : List ℕ) (end : Option ℕ)
    → parse_end second ≡ ok end
    → is_backward begin end ≡ false
    → EndsAfter begin end
ends_after begin second none h k = tt
ends_after begin second (some end) h k = (ground (arith, k), parse_end-lt second h)

abbrev range_of : ℕ → Option ℕ → ByteRange
range_of begin end = record { begin = some begin; end = end }

parse_parts-IsValid : (parts : List (List ℕ)) {r : ByteRange} → parse_parts parts ≡ ok r → IsValid r
unfolding parse_parts
parse_parts-IsValid [] {r} h = cc
parse_parts-IsValid (first ∷ []) {r} h = cc
parse_parts-IsValid (first ∷ second ∷ third ∷ rest) {r} h = cc
parse_parts-IsValid (first ∷ second ∷ []) {r} h =
    let (begin, b, h₁) = >>=-ok (parse_u64 first) _ h in
    let (end, e, h₂) = >>=-ok (parse_end second) _ h₁ in
    elim (Bool-cases (is_backward begin end)) [
      | inl k ↦ absurd (ground (arith, k, h₂))
      | inr k ↦
          (let kept : ok (range_of begin end) ≡ ok r = (rw k at h₂) in
            let same : range_of begin end ≡ r = cc in
            subst IsValid same (begin, refl, parse_u64-lt first b, ends_after begin second end e k))
    ]

parse_range-IsValid : (range : List ℕ) {r : ByteRange} → parse_range range ≡ ok r → IsValid r
unfolding parse_range
parse_range-IsValid range {r} h =
    let (done, e, k) =
      >>=-ok (refuse_if (is_empty range) tt) (λ _. parse_parts (split hyphen range)) h in
    parse_parts-IsValid (split hyphen range) k

parse_ranges-IsValid :
    (ranges : List (List ℕ)) {rs : List ByteRange}
    → parse_ranges ranges ≡ ok rs
    → All IsValid rs × (length rs ≡ length ranges)
unfolding parse_ranges
parse_ranges-IsValid [] {rs} h = let same : [] ≡ rs = cc in rw (sym same) (tt, refl)
parse_ranges-IsValid (range ∷ ranges) {rs} h =
    let (first, e, h₁) = >>=-ok (parse_range range) _ h in
    let (rest, f, h₂) = >>=-ok (parse_ranges ranges) (λ rest. ok (first ∷ rest)) h₁ in
    let (v, l) = parse_ranges-IsValid ranges f in
    let same : first ∷ rest ≡ rs = cc in rw (sym same) ((parse_range-IsValid range e, v), ap suc l)

push_front-parts : (b : ℕ) (parts : List (List ℕ)) → 0 < length (push_front b parts)
push_front-parts b [] = omega arith
push_front-parts b (part ∷ parts) = omega arith

split-parts : (separator : ℕ) (s : List ℕ) → 0 < length (split separator s)
unfolding split
split-parts separator [] = omega arith
split-parts separator (b ∷ s) = elim (Bool-cases (b == separator)) [
  | inl e ↦ rw e (omega arith)
  | inr e ↦ rw e (push_front-parts b (split separator s))
]

-- The ranges that the header is parsed to: at least one, each with a first byte, its last byte where
-- it has one not before the first, and both of them below 2^64.
pub from_str-IsValid :
    (s : List ℕ) (rs : List ByteRange) → from_str s ≡ ok rs → All IsValid rs × (0 < length rs)
unfolding from_str
from_str-IsValid s rs h =
    let (done, e, h₁) =
      >>=-ok (refuse_if (is_empty s) tt)
        (λ _. or_err (strip_prefix prefix s) tt >>= λ rest. parse_ranges (split comma rest)) h in
    let (rest, f, h₂) = >>=-ok (or_err (strip_prefix prefix s) tt) _ h₁ in
    let (v, l) = parse_ranges-IsValid (split comma rest) h₂ in
    (v, omega (arith, l, split-parts comma rest))
