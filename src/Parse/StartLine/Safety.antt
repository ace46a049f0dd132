-- ===== src/Parse/StartLine/Safety.antt =====
-- No start line makes the parser panic: every slice it takes is in range.
use qhttp.Base.{
  ◌≤◌, length-drop, drop, ℕ, ◌+◌, ◌<◌, ◌^◌, ◌≡◌, ◌≢◌, refl, sym, ◌∙◌, inl, inr, List, [], ◌∷◌,
  Option, ok, err, panic, leb, ◌==◌, sub_usize, arith, length, slice-some, IoResult, IoError,
  Bool-cases, Option-cases,
}
use qhttp.Parse.Chars.{sp}
use qhttp.Parse.Scan.{scan, find_next_sp}
use qhttp.Parse.Scan.Bounds.{Within, Within-wider, scan-Within}
use qhttp.Parse.StartLine.{version_of, parse_target, parse_start_line2}

find_next_sp-Within : (buf : List ℕ) → Within (find_next_sp buf) (length buf)
unfolding find_next_sp
find_next_sp-Within buf =
    Within-wider (scan (λ b. b == sp) buf 0) (0 + length buf) (length buf) (omega arith)
      (scan-Within (λ b. b == sp) buf 0)

module _ {Method Uri : Type 0} (method_from_bytes : List ℕ → Option Method)
    (uri_try_from : List ℕ → Option Uri) where
  refused : {A : Type 0} {r : IoResult A} {x : IoError} → r ≡ err x → r ≢ panic
  refused h e = cc

  parsed : {A : Type 0} {r : IoResult A} {a : A} → r ≡ ok a → r ≢ panic
  parsed h e = cc

  parse_target-ne-panic :
      (m : Method) (buf : List ℕ) (start : ℕ)
      → length buf < 2 ^ 63
      → start ≤ length buf
      → parse_target method_from_bytes uri_try_from m buf start ≢ panic
  unfolding parse_target
  parse_target-ne-panic m buf start w h e = elim (find_next_sp-Within (drop start buf)) [
    | inl f ↦ ground arith
    | inr (inl f) ↦ ground arith
    | inr (inr (idx, f, k)) ↦ elim (Bool-cases (leb (length buf) (start + idx + 8))) [
      | inl q ↦ ground arith
      | inr q ↦
          let (target, s, _) =
            slice-some buf start (start + idx) (omega arith)
              (omega (arith, length-drop start buf)) in
          let (version, t, _) =
            slice-some buf (start + idx + 1) (sub_usize (length buf) 2) (ground arith)
              (ground arith) in
          elim (Option-cases (uri_try_from target)) [
            | inl u ↦ refused {x = IoError.invalid_data} (rw (f, q, s, u) refl) e
            | inr (uri, u) ↦ parsed {a = (m, uri, version_of version)} (rw (f, q, s, u, t) refl) e
          ]
    ]
  ]

  -- No slice makes the parser of start lines panic.
  pub parse_start_line2-ne-panic :
      (buf : List ℕ)
      → length buf < 2 ^ 63
      → parse_start_line2 method_from_bytes uri_try_from buf ≢ panic
  unfolding parse_start_line2
  parse_start_line2-ne-panic [] w e = cc
  parse_start_line2-ne-panic (b ∷ rest) w e = elim (find_next_sp-Within (b ∷ rest)) [
    | inl f ↦ ground arith
    | inr (inl f) ↦ ground arith
    | inr (inr (end, f, k)) ↦ elim (Bool-cases (leb (length (b ∷ rest)) (end + 1))) [
      | inl q ↦ ground arith
      | inr q ↦
          let (name, s, _) = slice-some (b ∷ rest) 0 end (omega arith) k in
          elim (Option-cases (method_from_bytes name)) [
            | inl u ↦ refused {x = IoError.invalid_data} (rw (f) (rw (q) (rw (s, u) refl))) e
            | inr (m, u) ↦
                let goes_on : parse_start_line2 method_from_bytes uri_try_from (b ∷ rest)
                    ≡ parse_target method_from_bytes uri_try_from m (b ∷ rest) (end + 1) =
                  rw (f) (rw (q) (rw (s, u) refl)) in
                parse_target-ne-panic m (b ∷ rest) (end + 1) w (ground arith) (sym goes_on ∙ e)
          ]
    ]
  ]
