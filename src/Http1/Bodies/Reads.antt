-- ===== src/Http1/Bodies/Reads.antt =====
-- The bytes that the connection reads for a body.
use qhttp.Base.{
  ℕ, ◌+◌, ◌-◌, ◌≡◌, ◌≤◌, ◌<◌, ◌⊎◌, inl, inr, refl, ap, subst, ◌∙◌, Bool-cases, false, List, [], ◌∷◌,
  ◌++◌, append_assoc, Option, some, err, ◌>>=◌, arith, ltb, leb, ◌==◌, length, length-append,
  IoError, IoResult, sub_usize,
}
use qhttp.Buffer.{Buffer, available_for_read, read_from_reader}
use qhttp.Buffer.Contents.{
  IsValid, contents, capacity, rotated-IsValid, contents-rotated, length-rotated,
  rotate_buffer-rotated,
}
use qhttp.Buffer.Fill.{as_mut_lem, read_from_reader_lem}
use qhttp.H2.Reader.{Arrival, bytes, failed, deliver}
use qhttp.H2.Reader.Fill.{available_for_read-contents}
use qhttp.Http1.Bodies.{Connection, Served, read_into_buffer, give_all, read_more, give_or_read}
use qhttp.Http1.Bodies.Order.{
  ahead, IsStopped, IsReady, GivesTo, give_part_lem, give_all_lem, give_lem, read_into_buffer_lem,
}

read_from_reader-err :
    {b : Buffer} (reader : ℕ → IoResult (List ℕ)) (e : IoError)
    → IsValid b
    → reader (capacity b - length (contents b)) ≡ err e
    → read_from_reader b reader ≡ err e
unfolding read_from_reader
read_from_reader-err {b} reader e v fails =
    let (window, q, l) = as_mut_lem (rotated-IsValid v) in
    let size : length window ≡ capacity b - length (contents b) =
      l ∙ rw (contents-rotated v, length-rotated v) refl in
    rw (rotate_buffer-rotated v, q, size, fails) refl

arrivals-cases :
    (arrivals : List Arrival)
    → IsStopped arrivals
      ⊎ ((piece : List ℕ) × (rest : List Arrival) × (arrivals ≡ bytes piece ∷ rest))
arrivals-cases [] = inl tt
arrivals-cases (bytes piece ∷ rest) = inr (piece, rest, refl)
arrivals-cases (failed e ∷ rest) = inl tt

-- The connection ends, with or without an error for the body.
abbrev pub Ends : Served (Connection × Buffer) → Type 0
Ends served = (o : Option IoError) × (served ≡ err o)

-- A read finds no bytes.
read_more-stopped :
    (c : Connection) (body : Buffer) (amount : ℕ)
    → IsReady c
    → IsStopped c.arrivals
    → Ends (read_more c body amount)
unfolding read_more read_into_buffer
read_more-stopped c body amount h stopped = by_arrivals c.arrivals refl stopped
  where
    by_arrivals :
        (arrivals : List Arrival)
        → c.arrivals ≡ arrivals
        → IsStopped arrivals
        → Ends (read_more c body amount)
    by_arrivals [] q stopped =
        let (b', e, v', ct, cp) =
          read_from_reader_lem (deliver c.arrivals) [] h.valid (rw q refl) (omega arith) in
        (some IoError.unexpected_eof, rw (e) refl)
    by_arrivals (bytes piece ∷ rest) q stopped = absurd stopped
    by_arrivals (failed e ∷ rest) q stopped =
        (some e, rw (read_from_reader-err (deliver c.arrivals) e h.valid (rw q refl)) refl)

-- A read of bytes, into an empty buffer.
read_more-bytes :
    (c : Connection) (body : Buffer) (amount : ℕ) (piece : List ℕ) (rest : List Arrival)
    → c.arrivals ≡ bytes piece ∷ rest
    → IsReady c
    → IsValid body
    → 0 < amount
    → length (contents c.buffer) ≡ 0
    → amount ≤ capacity body - length (contents body)
    → GivesTo c body amount (read_more c body amount)
unfolding read_more
read_more-bytes c body amount piece rest q h v positive empty fits =
    let (c₁, n, e, some_bytes, h₁, same, more, written, asked) =
      read_into_buffer_lem c piece rest q h (omega (arith, empty, h.some_room)) in
    let (c', body', g, f) =
      give_lem c₁ body amount h₁ v positive (omega (arith, more, some_bytes)) fits in
    let not_eof : (n == 0) ≡ false = ground (arith, some_bytes) in
    (
      c',
      body',
      rw (e, not_eof) g,
      record {
        prepared = f.prepared;
        valid = f.valid;
        room = f.room;
        in_order = f.in_order ∙ ap (λ (xs : List ℕ). contents body ++ xs) same;
        at_most = f.at_most;
        at_least = f.at_least;
        written = f.written ∙ written;
        asked = f.asked ∙ asked;
      },
    )

abbrev pub Outcome : Connection → Buffer → ℕ → Served (Connection × Buffer) → Type 0
Outcome c body amount served =
    GivesTo c body amount served
    ⊎ (IsStopped c.arrivals × (length (contents c.buffer) < amount) × Ends served)

read_more_lem :
    (c : Connection) (body : Buffer) (amount : ℕ)
    → IsReady c
    → IsValid body
    → 0 < amount
    → length (contents c.buffer) ≡ 0
    → amount ≤ capacity body - length (contents body)
    → Outcome c body amount (read_more c body amount)
read_more_lem c body amount h v positive empty fits = elim (arrivals-cases c.arrivals) [
  | inl stopped ↦
      inr (stopped, omega (arith, empty, positive), read_more-stopped c body amount h stopped)
  | inr (piece, rest, q) ↦ inl (read_more-bytes c body amount piece rest q h v positive empty fits)
]

-- The bytes that are there are given first, then those of a read.
then_read :
    (c : Connection) (body : Buffer) (amount : ℕ)
    → IsReady c
    → IsValid body
    → length (contents c.buffer) < amount
    → amount ≤ capacity body - length (contents body)
    → Outcome c body amount
        (give_all c body >>= λ (c', body', n). read_more c' body' (sub_usize amount n))
then_read c body amount h v less fits =
    let (c₁, body₁, q, g) = give_all_lem c body h v (omega (arith, less, fits)) in
    let n : ℕ = length (contents c.buffer) in
    let size : length (contents body₁) ≡ length (contents body) + n =
      rw g.taken (length-append (contents body) (contents c.buffer)) in
    let left : sub_usize amount n ≡ amount - n = ground (arith, less, fits, v.in_range, v.small) in
    let given : contents body₁ ++ ahead c₁ ≡ contents body ++ ahead c =
      rw (g.taken, g.left, g.arrivals) (append_assoc (contents body) (contents c.buffer) _) in
    elim (read_more_lem c₁ body₁ (amount - n) g.prepared g.valid (omega (arith, less))
      (rw g.left refl) (omega (arith, g.room, size, fits, less))) [
        | inl (c', body', e, f) ↦ inl (
          c',
          body',
          rw (q, left) e,
          record {
            prepared = f.prepared;
            valid = f.valid;
            room = f.room ∙ g.room;
            in_order = f.in_order ∙ given;
            at_most = omega (arith, f.at_most, size, less);
            at_least = omega (arith, f.at_least, size);
            written = f.written ∙ g.written;
            asked = f.asked ∙ g.asked;
          },
        )
        | inr (stopped, none_left, (o, e)) ↦
            inr (subst IsStopped g.arrivals stopped, less, (o, rw (q, left) e))
      ]

pub give_or_read_lem :
    (c : Connection) (body : Buffer) (amount : ℕ)
    → IsReady c
    → IsValid body
    → 0 < amount
    → amount ≤ capacity body - length (contents body)
    → Outcome c body amount (give_or_read c body amount)
unfolding give_or_read
give_or_read_lem c body amount h v positive fits =
    let unread : available_for_read c.buffer ≡ length (contents c.buffer) =
      available_for_read-contents h.valid in
    elim (Bool-cases (ltb 0 (available_for_read c.buffer))) [
      | inl e ↦ elim (Bool-cases (leb amount (available_for_read c.buffer))) [
        | inl k ↦
            inl (
              rw (e, k) (give_part_lem c body amount h v positive (ground (arith, k, unread)) fits))
        | inr k ↦ rw (e, k) (then_read c body amount h v (ground (arith, k, unread)) fits)
      ]
      | inr e ↦ rw e (read_more_lem c body amount h v positive (ground (arith, e, unread)) fits)
    ]
