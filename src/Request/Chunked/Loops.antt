-- ===== src/Request/Chunked/Loops.antt =====
-- The two loops that read byte by byte: for the CR NL behind a chunk, and for a chunk's header.
use qhttp.Base.{
  ℕ, zero, suc, ◌+◌, ◌≤◌, ◌<◌, ◌≡◌, refl, sym, ap, ap₂, ◌∙◌, true, List, [], ◌∷◌, ◌++◌, append-nil,
  Option, none, some, ok, arith, ltb, leb, length, length-append, All, Bool-cases, inl, inr, ltb→lt,
  IoResult, subst, ◌>>=◌,
}
use qhttp.Buffer.Contents.{IsValid, contents, capacity, as_ref-contents}
use qhttp.Parse.Chars.{cr, nl, is_hex}
use qhttp.Parse.Chunk.{find_chunk_header_end}
use qhttp.Parse.Chunk.Header.{find_chunk_header_end_iff, find_chunk_header_end-incomplete}
use qhttp.Request.{Poll, Filled}
use qhttp.Request.Chunked.{ChunkedReader, Found, found, stopped, await_crlf, find_header}
use qhttp.Request.Chunked.Fill.{IsSource, ahead, Same, PassedOn, OneMore, read_to_buffer_lem}

-- The first of two texts is a front of what the second one begins with.
pub split_front :
    (xs ys t more : List ℕ)
    → xs ++ ys ≡ t ++ more
    → length xs ≤ length t
    → (u : List ℕ) × (t ≡ xs ++ u) × (ys ≡ u ++ more)
split_front [] ys t more e h = (t, refl, e)
split_front (x ∷ xs) ys [] more e h = absurd (omega (arith, h))
split_front (x ∷ xs) ys (y ∷ t) more e h =
    let (u, a, b) = split_front xs ys t more (cc) (omega (arith, h)) in
    let same : y ≡ x = cc in (u, ap₂ ◌∷◌ same a, b)

pub All-front : (P : ℕ → Type 0) (xs ys : List ℕ) → All P (xs ++ ys) → All P xs
All-front P [] ys h = tt
All-front P (x ∷ xs) ys h = (h.0, All-front P xs ys h.1)

-- The front of a header that is not all of it.
incomplete :
    (digits xs u : List ℕ)
    → digits ++ cr ∷ nl ∷ [] ≡ xs ++ u
    → 0 < length u
    → 0 < length digits
    → All (λ b. is_hex b ≡ true) digits
    → find_chunk_header_end xs ≡ ok none
incomplete digits xs u e h k hex = elim (Bool-cases (leb (length xs) (length digits))) [
  | inl short ↦
      (let (w, a, b) = split_front xs u digits (cr ∷ nl ∷ []) (sym e) (ground (arith, short)) in
        (find_chunk_header_end-incomplete xs
          (All-front (λ b. is_hex b ≡ true) xs w (subst (All (λ b. is_hex b ≡ true)) a hex))).0)
  | inr long ↦
      (let (w, a, b) = split_front digits (cr ∷ nl ∷ []) xs u e (ground (arith, long)) in
        behind w a b)
]
  where
    behind :
        (w : List ℕ) → xs ≡ digits ++ w → cr ∷ nl ∷ [] ≡ w ++ u → find_chunk_header_end xs ≡ ok none
    behind [] a b =
        subst (λ x. find_chunk_header_end x ≡ ok none) (sym (a ∙ append-nil digits))
          (find_chunk_header_end-incomplete digits hex).0
    behind (x ∷ []) a b =
        let same : x ≡ cr = cc in
        subst (λ x. find_chunk_header_end x ≡ ok none) (sym (a ∙ ap (λ c. digits ++ c ∷ []) same))
          ((find_chunk_header_end-incomplete digits hex).1 k)
    behind (x ∷ y ∷ w) a b = absurd (omega (arith, ap length b, length-append w u, h))

module _ {R : Type 0} (rest : R → List ℕ) (poll_below : R → ℕ → Filled R)
    (source : IsSource rest poll_below) where
  Same-refl : (c : ChunkedReader R) → IsValid c.buffer → Same rest c c
  Same-refl c v = record {
    valid = v;
    room = refl;
    bytes = refl;
    status = refl;
    size = refl;
    count = refl;
  }

  Same-trans : (a b c : ChunkedReader R) → Same rest a b → Same rest b c → Same rest a c
  Same-trans a b c s t = record {
    valid = t.valid;
    room = t.room ∙ s.room;
    bytes = t.bytes ∙ s.bytes;
    status = t.status ∙ s.status;
    size = t.size ∙ s.size;
    count = t.count ∙ s.count;
  }

  -- While the text `t` is not in the buffer, there are bytes below.
  below_left :
      (c : ChunkedReader R) (t more : List ℕ)
      → ahead rest c ≡ t ++ more
      → length (contents c.buffer) < length t
      → 0 < length (rest c.reader)
  below_left c t more e h = omega (
    arith,
    ap length e,
    length-append (contents c.buffer) (rest c.reader),
    length-append t more,
    h,
  )

  -- CR NL is in the buffer and nothing else, or the poll ends.
  abbrev pub Awaited : ChunkedReader R → Option Poll → Type 0
  Awaited c none = contents c.buffer ≡ cr ∷ nl ∷ []
  Awaited c (some poll) = PassedOn poll_below poll × (length (contents c.buffer) < 2)

  abbrev Awaiting : ChunkedReader R → IoResult (ChunkedReader R × Option Poll) → Type 0
  Awaiting c result =
      (c' : ChunkedReader R) × (o : Option Poll) × (result ≡ ok (c', o))
      × Same rest c c'
      × Awaited c' o

  pub await_crlf_lem :
      (fuel : ℕ) (c : ChunkedReader R) (more : List ℕ)
      → IsValid c.buffer
      → 2 ≤ capacity c.buffer
      → ahead rest c ≡ cr ∷ nl ∷ more
      → length (contents c.buffer) ≤ 2
      → 2 < length (contents c.buffer) + fuel
      → Awaiting c (await_crlf poll_below fuel c)
  unfolding await_crlf
  await_crlf_lem zero c more v room e few enough = absurd (omega (arith, few, enough))
  await_crlf_lem (suc fuel) c more v room e few enough =
      rw (as_ref-contents v) (elim (Bool-cases (ltb (length (contents c.buffer)) 2)) [
        | inl k ↦
            (let short : length (contents c.buffer) < 2 = ltb→lt _ _ k in
              let (c₁, o, q, s, m) =
                read_to_buffer_lem rest poll_below source c v (omega (arith, short, room))
                  (below_left c (cr ∷ nl ∷ []) more e short) in
              rw (k, q)
                (go_on
                  (λ c₂ t n.
                    await_crlf_lem fuel c₂ more t.valid (omega (arith, t.room, room)) (t.bytes ∙ e)
                      (omega (arith, n, short)) (omega (arith, n, enough)))
                  c₁ o s m short))
        | inr k ↦
            (let (u, a, b) =
                split_front (contents c.buffer) (rest c.reader) (cr ∷ nl ∷ []) more e few in
              rw k (c, none, refl, Same-refl c v, ends u a (ground (arith, k, few))))
      ])
    where
      ends :
          (u : List ℕ)
          → cr ∷ nl ∷ [] ≡ contents c.buffer ++ u
          → length (contents c.buffer) ≡ 2
          → contents c.buffer ≡ cr ∷ nl ∷ []
      ends [] a l = sym (a ∙ append-nil (contents c.buffer))
      ends (x ∷ u) a l =
          absurd (omega (arith, ap length a, length-append (contents c.buffer) (x ∷ u), l))

      go_on :
          ((c₁ : ChunkedReader R)
            → Same rest c c₁
            → length (contents c₁.buffer) ≡ length (contents c.buffer) + 1
            → Awaiting c₁ (await_crlf poll_below fuel c₁))
          → (c₁ : ChunkedReader R) (o : Option Poll) → Same rest c c₁
          → OneMore rest poll_below c c₁ o
          → length (contents c.buffer) < 2
          → Awaiting c
              (elim o [ none ↦ await_crlf poll_below fuel c₁ | some poll ↦ ok (c₁, some poll) ])
      go_on again c₁ none s m short =
          let (c', o, q, t, w) = again c₁ s m in (c', o, q, Same-trans c c₁ c' s t, w)
      go_on again c₁ (some poll) s m short =
          (c₁, some poll, refl, s, (m.0, omega (arith, ap length m.1, short)))

  module _ (digits : List ℕ) (hex : All (λ b. is_hex b ≡ true) digits)
      (some_digits : 0 < length digits) where
    abbrev pub header : List ℕ
    header = digits ++ cr ∷ nl ∷ []

    -- The header is in the buffer and nothing else, or the poll ends.
    abbrev pub Sought : ChunkedReader R → Found → Type 0
    Sought c (found idx) = (idx ≡ length header) × (contents c.buffer ≡ header)
    Sought c (stopped poll) =
        PassedOn poll_below poll × (length (contents c.buffer) < length header)

    abbrev Seeking : ChunkedReader R → IoResult (ChunkedReader R × Found) → Type 0
    Seeking c result =
        (c' : ChunkedReader R) × (f : Found) × (result ≡ ok (c', f)) × Same rest c c' × Sought c' f

    complete : find_chunk_header_end header ≡ ok (some (length header))
    complete =
        (find_chunk_header_end_iff header (length header)).1
          (digits, [], refl, hex, some_digits, length-append digits (cr ∷ nl ∷ []))

    pub find_header_lem :
        (fuel : ℕ) (c : ChunkedReader R) (more : List ℕ)
        → IsValid c.buffer
        → length header ≤ capacity c.buffer
        → ahead rest c ≡ header ++ more
        → length (contents c.buffer) ≤ length header
        → length header < length (contents c.buffer) + fuel
        → Seeking c (find_header poll_below fuel c)
    unfolding find_header
    find_header_lem zero c more v room e few enough = absurd (omega (arith, few, enough))
    find_header_lem (suc fuel) c more v room e few enough =
        let (u, a, b) = split_front (contents c.buffer) (rest c.reader) header more e few in
        rw (as_ref-contents v)
          (elim (Bool-cases (ltb (length (contents c.buffer)) (length header))) [
            | inl k ↦
                (let short : length (contents c.buffer) < length header = ltb→lt _ _ k in
                  let missing : 0 < length u =
                    omega (arith, ap length a, length-append (contents c.buffer) u, short) in
                  let (c₁, o, q, s, m) =
                    read_to_buffer_lem rest poll_below source c v (omega (arith, short, room))
                      (below_left c header more e short) in
                  rw (incomplete digits (contents c.buffer) u a missing some_digits hex, ◌>>=◌, q)
                    (go_on
                      (λ c₂ t n.
                        find_header_lem fuel c₂ more t.valid (omega (arith, t.room, room))
                          (t.bytes ∙ e) (omega (arith, n, short)) (omega (arith, n, enough)))
                      c₁ o s m short))
            | inr k ↦
                (let all : contents c.buffer ≡ header = whole u a (ground (arith, k, few)) in
                  rw (all, complete, ◌>>=◌)
                    (c, found (length header), refl, Same-refl c v, (refl, all)))
          ])
      where
        whole :
            (u : List ℕ)
            → header ≡ contents c.buffer ++ u
            → length (contents c.buffer) ≡ length header
            → contents c.buffer ≡ header
        whole [] a l = sym (a ∙ append-nil (contents c.buffer))
        whole (x ∷ u) a l =
            absurd (omega (arith, ap length a, length-append (contents c.buffer) (x ∷ u), l))

        go_on :
            ((c₁ : ChunkedReader R)
              → Same rest c c₁
              → length (contents c₁.buffer) ≡ length (contents c.buffer) + 1
              → Seeking c₁ (find_header poll_below fuel c₁))
            → (c₁ : ChunkedReader R) (o : Option Poll) → Same rest c c₁
            → OneMore rest poll_below c c₁ o
            → length (contents c.buffer) < length header
            → Seeking c (elim o [
              | none ↦ find_header poll_below fuel c₁
              | some poll ↦ ok (c₁, stopped poll)
            ])
        go_on again c₁ none s m short =
            let (c', o, q, t, w) = again c₁ s m in (c', o, q, Same-trans c c₁ c' s t, w)
        go_on again c₁ (some poll) s m short =
            (c₁, stopped poll, refl, s, (m.0, omega (arith, ap length m.1, short)))
