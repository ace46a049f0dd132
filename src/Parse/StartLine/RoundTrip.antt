-- ===== src/Parse/StartLine/RoundTrip.antt =====
-- A start line is read back from its parts.
use qhttp.Base.{
  same_bytes, ◌≤◌, length-drop, drop-drop, ℕ, ◌+◌, ◌-◌, ◌<◌, ◌^◌, ◌≡◌, refl, sym, ap, ◌∙◌, true,
  false, List, [], ◌∷◌, ◌++◌, Option, some, ok, leb, ◌==◌, sub_usize, arith, length, drop, slice,
  All, length-append, take-append_self,
}
use qhttp.Parse.Chars.{cr, nl, sp}
use qhttp.Parse.Scan.{find_next_sp}
use qhttp.Parse.Scan.First.{scan-stop_start}
use qhttp.Parse.StartLine.{
  Version, http1, http1_1, http2, version_of, parse_target, parse_start_line2,
}

abbrev pub version_bytes : Version → List ℕ
version_bytes Version.http_10 = http1
version_bytes Version.http_11 = http1_1
version_bytes Version.http_2 = http2

version_of-version_bytes : (v : Version) → version_of (version_bytes v) ≡ v
unfolding version_of same_bytes
version_of-version_bytes Version.http_10 = refl
version_of-version_bytes Version.http_11 = refl
version_of-version_bytes Version.http_2 = refl

length-version_bytes : (v : Version) → length (version_bytes v) ≡ 8
length-version_bytes Version.http_10 = refl
length-version_bytes Version.http_11 = refl
length-version_bytes Version.http_2 = refl

slice-drop :
    (buf ys zs : List ℕ) (n m : ℕ)
    → drop n buf ≡ ys ++ zs
    → n ≤ length buf
    → m ≡ n + length ys
    → slice buf n m ≡ some ys
slice-drop buf ys zs n m e h k =
    let l : length buf ≡ n + (length ys + length zs) =
      omega (arith, length-drop n buf, ap length e, length-append ys zs) in
    let w : m - n ≡ length ys = omega arith in
    rw (lt-leb n m (omega arith), lt-leb m (length buf) (omega arith), e, w, take-append_self ys zs)
      refl
  where
    lt-leb : (a b : ℕ) → a ≤ b → leb a b ≡ true
    lt-leb a b h = ground arith

drop-past : (xs : List ℕ) (x : ℕ) (ys : List ℕ) → drop (length xs + 1) (xs ++ x ∷ ys) ≡ ys
drop-past [] x ys = ground arith
drop-past (y ∷ xs) x ys = ground (arith, drop-past xs x ys)

find_next_sp_lem :
    (xs rest : List ℕ)
    → All (λ b. (b == sp) ≡ false) xs
    → find_next_sp (xs ++ sp ∷ rest) ≡ ok (some (length xs))
unfolding find_next_sp
find_next_sp_lem xs rest h = scan-stop_start (λ b. b == sp) xs sp rest h refl

module _ {Method Uri : Type 0} (method_from_bytes : List ℕ → Option Method)
    (uri_try_from : List ℕ → Option Uri) where
  parse_target_lem :
      (m : Method) (buf target : List ℕ) (start : ℕ) (v : Version) {uri : Uri}
      → drop start buf ≡ target ++ sp ∷ (version_bytes v ++ cr ∷ nl ∷ [])
      → start ≤ length buf
      → length buf < 2 ^ 63
      → All (λ b. (b == sp) ≡ false) target
      → uri_try_from target ≡ some uri
      → parse_target method_from_bytes uri_try_from m buf start ≡ ok (m, uri, v)
  unfolding parse_target
  parse_target_lem m buf target start v {uri} e h w t u =
      let l : length buf ≡ start + length target + 11 = omega (
        arith,
        length-drop start buf,
        ap length e,
        length-append target (sp ∷ (version_bytes v ++ cr ∷ nl ∷ [])),
        length-append (version_bytes v) (cr ∷ nl ∷ []),
        length-version_bytes v,
      ) in
      let last : drop (start + length target + 1) buf ≡ version_bytes v ++ cr ∷ nl ∷ [] =
        ap (λ n. drop n buf) (omega arith)
        ∙ sym (drop-drop (length target + 1) start buf)
        ∙ ap (drop (length target + 1)) e
        ∙ drop-past target sp (version_bytes v ++ cr ∷ nl ∷ []) in
      let found : find_next_sp (drop start buf) ≡ ok (some (length target)) =
        ap find_next_sp e ∙ find_next_sp_lem target (version_bytes v ++ cr ∷ nl ∷ []) t in
      let enough : leb (length buf) (start + length target + 8) ≡ false = ground arith in
      rw
        (
          found,
          enough,
          slice-drop buf target (sp ∷ (version_bytes v ++ cr ∷ nl ∷ [])) start
              (start + length target) e h refl,
          u,
          slice-drop buf (version_bytes v) (cr ∷ nl ∷ []) (start + length target + 1)
              (sub_usize (length buf) 2) last (omega arith) (omega (arith, length-version_bytes v)),
          version_of-version_bytes v,
        )
        refl

  parse_start_line2-parse_target :
      (buf name : List ℕ) (end : ℕ) {m : Method}
      → find_next_sp buf ≡ ok (some end)
      → leb (length buf) (end + 1) ≡ false
      → slice buf 0 end ≡ some name
      → method_from_bytes name ≡ some m
      → parse_start_line2 method_from_bytes uri_try_from buf
        ≡ parse_target method_from_bytes uri_try_from m buf (end + 1)
  unfolding parse_start_line2
  parse_start_line2-parse_target [] name end f l n e = absurd (ground arith)
  parse_start_line2-parse_target (b ∷ rest) name end f l n e = rw (f) (rw (l) (rw (n, e) refl))

  -- A start line of a name and a target without a space, which the two readers accept, and of a
  -- known version is read back as it was written; the lengths together are below 2^62.
  pub parse_start_line2_lem :
      (name target : List ℕ) (v : Version) {m : Method} {uri : Uri}
      → length name + length target < 2 ^ 62
      → All (λ b. (b == sp) ≡ false) name
      → All (λ b. (b == sp) ≡ false) target
      → method_from_bytes name ≡ some m
      → uri_try_from target ≡ some uri
      → parse_start_line2 method_from_bytes uri_try_from
          (name ++ sp ∷ (target ++ sp ∷ (version_bytes v ++ cr ∷ nl ∷ [])))
        ≡ ok (m, uri, v)
  parse_start_line2_lem name target v {m} {uri} w hn ht hm hu =
      let after : List ℕ = target ++ sp ∷ (version_bytes v ++ cr ∷ nl ∷ []) in
      let buf : List ℕ = name ++ sp ∷ after in
      let rest : drop (length name + 1) buf ≡ after = drop-past name sp after in
      let l : length buf ≡ length name + length target + 12 = omega (
        arith,
        length-append name (sp ∷ after),
        length-append target (sp ∷ (version_bytes v ++ cr ∷ nl ∷ [])),
        length-append (version_bytes v) (cr ∷ nl ∷ []),
        length-version_bytes v,
      ) in
      let more : leb (length buf) (length name + 1) ≡ false = ground arith in
      parse_start_line2-parse_target buf name (length name) (find_next_sp_lem name after hn) more
        (slice-drop buf name (sp ∷ after) 0 (length name) refl (omega arith) (omega arith)) hm
      ∙ parse_target_lem m buf target (length name + 1) v rest (omega arith) (omega arith) ht hu
