-- ===== src/Buffer/Fill.antt =====
-- Filling a buffer: `write` and `read_from_reader` append to the unread bytes.
use qhttp.Base.{
  ℕ, ◌+◌, ◌-◌, ◌≤◌, ◌≡◌, sym, ap, ap₂, ◌∙◌, List, ◌++◌, append-nil, ltb, ◌==◌, if◌then◌else◌, min,
  arith, length, take, drop, slice-some, ok, length-append, length-take, length-drop, take-append,
  take-append_add, take-length, Bool-cases, inl, inr, IoResult, refl, subst, some,
}
use qhttp.Buffer.{
  Buffer, available_for_write, as_mut, copy_in, progress_write, write, read_from_reader,
}
use qhttp.Buffer.Contents.{
  IsValid, contents, capacity, length-contents, rotated, rotate_buffer-rotated, length-rotated,
  rotated-IsValid, contents-rotated, read_pointer-rotated,
}

-- Bytes copied in at the write pointer of a rotated buffer.
abbrev filled : Buffer → List ℕ → Buffer
filled b bytes = record b {
  inner = take b.write_pointer b.inner ++ (bytes ++ drop (b.write_pointer + length bytes) b.inner);
  write_pointer = b.write_pointer + length bytes;
}

module _ (b : Buffer) (bytes : List ℕ) (v : IsValid b) (front : b.read_pointer ≡ 0)
    (fits : b.write_pointer + length bytes ≤ length b.inner) where
  length-prefix : length (take b.write_pointer b.inner) ≡ b.write_pointer
  length-prefix = omega (arith, length-take b.write_pointer b.inner)

  length-filled : length (filled b bytes).inner ≡ length b.inner
  length-filled = omega (
    arith,
    length-prefix,
    length-append (take b.write_pointer b.inner)
        (bytes ++ drop (b.write_pointer + length bytes) b.inner),
    length-append bytes (drop (b.write_pointer + length bytes) b.inner),
    length-drop (b.write_pointer + length bytes) b.inner,
  )

  filled-IsValid : IsValid (filled b bytes)
  filled-IsValid = ground (arith, length-filled)

  contents-filled : contents (filled b bytes) ≡ contents b ++ bytes
  contents-filled =
      let rest : List ℕ = drop (b.write_pointer + length bytes) b.inner in
      ground (
        arith,
        length-prefix,
        take-append_add (length bytes) (take b.write_pointer b.inner) (bytes ++ rest),
        take-append (length bytes) bytes rest,
        take-length bytes,
      )

-- The room behind the write pointer of a rotated buffer, and how much of `bytes` goes there.
abbrev room : Buffer → ℕ
room b = length b.inner - b.write_pointer

abbrev taken : Buffer → List ℕ → List ℕ
taken b bytes = take (min (room b) (length bytes)) bytes

-- What `write` leaves of a rotated buffer: nothing is touched if there is no room.
abbrev written : Buffer → List ℕ → Buffer
written b bytes = if b.write_pointer == length b.inner then b else filled b (taken b bytes)

module _ (b : Buffer) (bytes : List ℕ) (v : IsValid b) (front : b.read_pointer ≡ 0) where
  length-taken : length (taken b bytes) ≡ min (room b) (length bytes)
  length-taken = omega (arith, length-take (min (room b) (length bytes)) bytes)

  taken_fits : b.write_pointer + length (taken b bytes) ≤ length b.inner
  taken_fits = omega (arith, length-taken)

  written-IsValid : IsValid (written b bytes)
  written-IsValid = elim (Bool-cases (b.write_pointer == length b.inner)) [
    | inl e ↦ rw e v
    | inr e ↦ rw e (filled-IsValid b (taken b bytes) v front taken_fits)
  ]

  length-written : length (written b bytes).inner ≡ length b.inner
  length-written = elim (Bool-cases (b.write_pointer == length b.inner)) [
    | inl e ↦ rw e
    | inr e ↦ rw e (length-filled b (taken b bytes) v front taken_fits)
  ]

  contents-written : contents (written b bytes) ≡ contents b ++ taken b bytes
  contents-written = elim (Bool-cases (b.write_pointer == length b.inner)) [
    | inl e ↦
        let none_taken : min (room b) (length bytes) ≡ 0 = ground arith in
        rw e (rw none_taken (sym (append-nil (contents b))))
    | inr e ↦ rw e (contents-filled b (taken b bytes) v front taken_fits)
  ]

  available_for_write-room : available_for_write b ≡ room b
  unfolding available_for_write
  available_for_write-room = omega arith

if-lt-eq-min : (n k : ℕ) → (if ltb k n then k else n) ≡ min n k
if-lt-eq-min n k = ground arith

write-written :
    {b : Buffer} (bytes : List ℕ)
    → IsValid b
    → write b bytes ≡ ok (written (rotated b) bytes, min (room (rotated b)) (length bytes))
unfolding write
write-written {b} bytes v =
    let c : Buffer = rotated b in
    let w : IsValid c = rotated-IsValid v in
    let front : c.read_pointer ≡ 0 = read_pointer-rotated v in
    rw (rotate_buffer-rotated v) (
      rw (available_for_write-room c bytes w front, if-lt-eq-min (room c) (length bytes))
        (ground (arith, taken_fits c bytes w front, length-taken c bytes w front)))

room-rotated : {b : Buffer} → IsValid b → room (rotated b) ≡ capacity b - length (contents b)
room-rotated {b} v =
    let w : IsValid (rotated b) = rotated-IsValid v in
    omega (
      arith,
      w.ordered,
      w.in_range,
      length-rotated v,
      read_pointer-rotated v,
      ap length (contents-rotated v),
      length-contents w,
    )

-- On a valid buffer `write` takes as many bytes as there is room for, says how many, and appends
-- exactly those to the unread bytes; the capacity stays, and so does validity.
pub write_lem :
    {b : Buffer} (bytes : List ℕ)
    → IsValid b
    → let n = min (capacity b - length (contents b)) (length bytes) in
      (b' : Buffer) × (write b bytes ≡ ok (b', n))
      × IsValid b'
      × (contents b' ≡ contents b ++ take n bytes)
      × (capacity b' ≡ capacity b)
write_lem {b} bytes v =
    let c : Buffer = rotated b in
    let w : IsValid c = rotated-IsValid v in
    let front : c.read_pointer ≡ 0 = read_pointer-rotated v in
    (
      written c bytes,
      rw (← room-rotated v) (write-written bytes v),
      written-IsValid c bytes w front,
      contents-written c bytes w front
          ∙ ap₂ ◌++◌ (contents-rotated v)
              (ap (λ (k : ℕ). take (min k (length bytes)) bytes) (room-rotated v)),
      length-written c bytes w front ∙ length-rotated v,
    )

-- A buffer that starts at 0 is handed out by `as_mut` as it is, with its room as the window.
as_mut-front :
    (b : Buffer)
    → IsValid b
    → b.read_pointer ≡ 0
    → (window : List ℕ) × (as_mut b ≡ ok (b, window)) × (length window ≡ room b)
unfolding as_mut
as_mut-front b v front =
    let (window, e, l) =
      slice-some b.inner b.write_pointer (length b.inner) v.in_range (omega arith) in
    (window, ground arith, l)

-- On a valid buffer, a reader that delivers bytes into the free room, no more than fit, has them
-- appended to the unread bytes; the capacity stays, and so does validity.
pub read_from_reader_lem :
    {b : Buffer} (reader : ℕ → IoResult (List ℕ)) (bytes : List ℕ)
    → IsValid b
    → reader (capacity b - length (contents b)) ≡ ok bytes
    → length bytes ≤ capacity b - length (contents b)
    → (b' : Buffer) × (read_from_reader b reader ≡ ok (b', length bytes))
      × IsValid b'
      × (contents b' ≡ contents b ++ bytes)
      × (capacity b' ≡ capacity b)
unfolding read_from_reader
read_from_reader_lem {b} reader bytes v delivers fits =
    let c : Buffer = rotated b in
    let w : IsValid c = rotated-IsValid v in
    let front : c.read_pointer ≡ 0 = read_pointer-rotated v in
    let (window, e, l) = as_mut-front c w front in
    let fits' : c.write_pointer + length bytes ≤ length c.inner =
      omega (arith, room-rotated v, w.in_range, fits) in
    (
      filled c bytes,
      rw (rotate_buffer-rotated v)
          (rw e (rw (l, room-rotated v, delivers) (ground (arith, fits')))),
      filled-IsValid c bytes w front fits',
      contents-filled c bytes w front fits'
          ∙ ap (λ (xs : List ℕ). xs ++ bytes) (contents-rotated v),
      length-filled c bytes w front fits' ∙ length-rotated v,
    )

-- On a valid buffer `as_mut` rotates it and hands out the free room.
pub as_mut_lem :
    {b : Buffer}
    → IsValid b
    → (window : List ℕ) × (as_mut b ≡ ok (rotated b, window))
      × (length window ≡ capacity b - length (contents b))
unfolding as_mut
as_mut_lem {b} v =
    let c : Buffer = rotated b in
    let w : IsValid c = rotated-IsValid v in
    let (window, e, l) =
      slice-some c.inner c.write_pointer (length c.inner) w.in_range (omega arith) in
    (window, rw (rotate_buffer-rotated v, e) refl, l ∙ room-rotated v)

-- Bytes that are copied into the room of a rotated buffer are unread once the write pointer is
-- moved behind them.
pub copy_in_lem :
    {b : Buffer} (bytes : List ℕ)
    → IsValid b
    → length bytes ≤ capacity b - length (contents b)
    → (inner : List ℕ) × (copy_in (rotated b).inner (rotated b).write_pointer bytes ≡ some inner)
      × IsValid (progress_write (record (rotated b) { inner = inner }) (length bytes))
      × (contents (progress_write (record (rotated b) { inner = inner }) (length bytes))
          ≡ contents b ++ bytes)
      × (capacity (progress_write (record (rotated b) { inner = inner }) (length bytes))
          ≡ capacity b)
unfolding progress_write
copy_in_lem {b} bytes v fits =
    let c : Buffer = rotated b in
    let w : IsValid c = rotated-IsValid v in
    let front : c.read_pointer ≡ 0 = read_pointer-rotated v in
    let fits' : c.write_pointer + length bytes ≤ length c.inner =
      omega (arith, room-rotated v, w.in_range, fits) in
    let long : length (filled c bytes).inner ≡ length c.inner =
      length-filled c bytes w front fits' in
    let moved : progress_write (record c { inner = (filled c bytes).inner }) (length bytes)
        ≡ filled c bytes =
      ground (arith, long, fits', w.small) in
    (
      (filled c bytes).inner,
      ground (arith, fits'),
      subst IsValid (sym moved) (filled-IsValid c bytes w front fits'),
      ap (λ (x : Buffer). contents x) moved
          ∙ contents-filled c bytes w front fits'
          ∙ ap (λ (xs : List ℕ). xs ++ bytes) (contents-rotated v),
      ap (λ (x : Buffer). capacity x) moved ∙ long ∙ length-rotated v,
    )
