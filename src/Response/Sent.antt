-- ===== src/Response/Sent.antt =====
-- No byte is lost or sent twice by a flush, whatever the writer below answers.
use qhttp.Base.{
  ℕ, zero, suc, ◌+◌, ◌≤◌, ◌<◌, ◌≡◌, ◌⊎◌, inl, inr, refl, sym, ap, ◌∙◌, List, [], ◌∷◌, ◌++◌,
  append_assoc, leb, arith, length, take, drop, length-take, length-drop, drop-drop, Bool-cases,
  IoError,
}
use qhttp.Response.{
  Answer, takes, not_ready, fails, Poll, ready, failed, pending, panic, Writer, ChunkedWriter,
  poll_flush_writer, write_loop, write_header, write_body, reset, and_then, flush_writer,
}

-- The outcome of a loop that has come to `pointer` in a buffer of `len` bytes.
abbrev pub Stopped : Poll (Unit {0}) → ℕ → ℕ → Type 0
Stopped poll pointer len =
    ((poll ≡ ready tt) × (pointer ≡ len))
    ⊎ (((poll ≡ pending) ⊎ ((e : IoError) × (poll ≡ failed e))) × (pointer < len))

abbrev pub Moved : List ℕ → List ℕ → ℕ → Poll (Unit {0}) × Writer × ℕ → Type 0
Moved sent bytes pointer r =
    (r.1.sent ++ drop r.2 bytes ≡ sent ++ drop pointer bytes)
    × (r.2 ≤ length bytes)
    × Stopped r.0 r.2 (length bytes)

take-drop_length : (n : ℕ) (xs : List ℕ) → take n xs ++ drop (length (take n xs)) xs ≡ xs
take-drop_length zero xs = refl
take-drop_length (suc n) [] = refl
take-drop_length (suc n) (x ∷ xs) = ap (◌∷◌ x) (take-drop_length n xs)

part_moved :
    (sent bytes : List ℕ) (pointer n : ℕ)
    → pointer ≤ length bytes
    → let part = take n (drop pointer bytes) in
      ((sent ++ part) ++ drop (pointer + length part) bytes ≡ sent ++ drop pointer bytes)
      × (pointer + length part ≤ length bytes)
part_moved sent bytes pointer n h =
    let part : List ℕ = take n (drop pointer bytes) in
    let rest : drop (pointer + length part) bytes ≡ drop (length part) (drop pointer bytes) =
      sym (drop-drop (length part) pointer bytes) in
    (
      append_assoc sent part (drop (pointer + length part) bytes)
          ∙ ap (λ (tail : List ℕ). sent ++ tail)
              (ap (λ (tail : List ℕ). part ++ tail) rest ∙ take-drop_length n (drop pointer bytes)),
      omega (arith, length-take n (drop pointer bytes), length-drop pointer bytes),
    )

pub write_loop-Moved :
    (answers : List Answer) (sent bytes : List ℕ) (pointer : ℕ)
    → pointer ≤ length bytes
    → Moved sent bytes pointer (write_loop answers sent bytes pointer)
unfolding write_loop
write_loop-Moved [] sent bytes pointer h = ground arith
write_loop-Moved (takes n ∷ answers) sent bytes pointer h =
    elim (Bool-cases (leb (length bytes) pointer)) [
      | inl k ↦ rw (k) (refl, h, inl (refl, ground arith))
      | inr k ↦
          let (e, l) = part_moved sent bytes pointer n h in
          let part : List ℕ = take n (drop pointer bytes) in
          let (m, b, s) = write_loop-Moved answers (sent ++ part) bytes (pointer + length part) l in
          rw (k) (m ∙ e, b, s)
    ]
write_loop-Moved (not_ready ∷ answers) sent bytes pointer h = ground arith
write_loop-Moved (fails e ∷ answers) sent bytes pointer h = ground arith

-- What is still to be sent of a chunk whose header was written out.
abbrev pub unsent : ChunkedWriter → List ℕ
unsent w =
    drop w.header_buffer_read_pointer w.header_buffer
    ++ drop w.buffer_read_pointer (take w.buffer_pointer w.buffer)

-- A chunk is being sent: its pointers are in range.
pub record IsSending (w : ChunkedWriter) : Type 0 where
  pub header : w.header_buffer_read_pointer ≤ length w.header_buffer
  pub body : w.buffer_read_pointer ≤ length (take w.buffer_pointer w.buffer)

abbrev pub NothingLost : ChunkedWriter → Poll (Unit {0}) × ChunkedWriter → Type 0
NothingLost w r =
    (r.1.writer.sent ++ unsent r.1 ≡ w.writer.sent ++ unsent w)
    × ((r.0 ≡ ready tt) ⊎ ((r.0 ≡ pending) ⊎ ((e : IoError) × (r.0 ≡ failed e))))

-- What two polls in a row keep.
and_then-NothingLost :
    (w : ChunkedWriter) (r : Poll (Unit {0}) × ChunkedWriter)
    (f : ChunkedWriter → Poll (Unit {0}) × ChunkedWriter)
    → r.1.writer.sent ++ unsent r.1 ≡ w.writer.sent ++ unsent w
    → ((r.0 ≡ ready tt) × NothingLost r.1 (f r.1))
      ⊎ ((r.0 ≡ pending) ⊎ ((e : IoError) × (r.0 ≡ failed e)))
    → NothingLost w (and_then r f)
and_then-NothingLost w (ready d, w') f c (inl (_, (m, out))) = (m ∙ c, out)
and_then-NothingLost w (ready d, w') f c (inr (inl e)) = absurd cc
and_then-NothingLost w (ready d, w') f c (inr (inr (x, e))) = absurd cc
and_then-NothingLost w (pending, w') f c o = (c, inr (inl refl))
and_then-NothingLost w (failed e, w') f c o = (c, inr (inr (e, refl)))
and_then-NothingLost w (panic, w') f c (inl (e, _)) = absurd cc
and_then-NothingLost w (panic, w') f c (inr (inl e)) = absurd cc
and_then-NothingLost w (panic, w') f c (inr (inr (x, e))) = absurd cc

poll_flush_writer_lem :
    (answers : List Answer) (sent : List ℕ)
    → let r = poll_flush_writer (record { answers = answers; sent = sent }) in
      (r.1.sent ≡ sent)
      × ((r.0 ≡ ready tt) ⊎ ((r.0 ≡ pending) ⊎ ((e : IoError) × (r.0 ≡ failed e))))
unfolding poll_flush_writer
poll_flush_writer_lem [] sent = (refl, inr (inl refl))
poll_flush_writer_lem (takes n ∷ answers) sent = (refl, inl refl)
poll_flush_writer_lem (not_ready ∷ answers) sent = (refl, inr (inl refl))
poll_flush_writer_lem (fails e ∷ answers) sent = (refl, inr (inr (e, refl)))

flush_writer-NothingLost : (w : ChunkedWriter) → NothingLost w (flush_writer w)
unfolding flush_writer
flush_writer-NothingLost w =
    let (s, o) = poll_flush_writer_lem w.writer.answers w.writer.sent in
    (ap (λ (sent : List ℕ). sent ++ unsent w) s, o)

drop-length : (xs : List ℕ) → drop (length xs) xs ≡ []
drop-length [] = refl
drop-length (x ∷ xs) = drop-length xs

-- When all is sent, the reset forgets nothing.
reset_flushed : (w : ChunkedWriter) → unsent w ≡ [] → NothingLost w (flush_writer (reset w))
unfolding reset
reset_flushed w e =
    let (m, o) = flush_writer-NothingLost (reset w) in
    (m ∙ ap (λ (tail : List ℕ). w.writer.sent ++ tail) (sym e), o)

-- The body, once the header is out.
body_flushed :
    (w : ChunkedWriter)
    → drop w.header_buffer_read_pointer w.header_buffer ≡ []
    → w.buffer_read_pointer ≤ length (take w.buffer_pointer w.buffer)
    → NothingLost w (and_then (write_body w) (λ w'. flush_writer (reset w')))
unfolding write_body
body_flushed w h b =
    let bytes : List ℕ = take w.buffer_pointer w.buffer in
    let (m, l, s) = write_loop-Moved w.writer.answers w.writer.sent bytes w.buffer_read_pointer b in
    and_then-NothingLost w (write_body w) (λ w'. flush_writer (reset w')) (rw (h) m)
      (elim s [
        | inl (r, p) ↦ inl (r, reset_flushed (write_body w).1 (rw (h, p) (drop-length bytes)))
        | inr (o, p) ↦ inr o
      ])

pub header_flushed :
    (w : ChunkedWriter)
    → IsSending w
    → NothingLost w
        (and_then (write_header w) (λ w₂. and_then (write_body w₂) (λ w₃. flush_writer (reset w₃))))
unfolding write_header
header_flushed w v =
    let bytes : List ℕ = take w.buffer_pointer w.buffer in
    let body : List ℕ = drop w.buffer_read_pointer bytes in
    let (m, l, s) =
      write_loop-Moved w.writer.answers w.writer.sent w.header_buffer w.header_buffer_read_pointer
        v.header in
    and_then-NothingLost w (write_header w)
      (λ w₂. and_then (write_body w₂) (λ w₃. flush_writer (reset w₃)))
      (sym (append_assoc _ _ body)
        ∙ ap (λ (front : List ℕ). front ++ body) m
        ∙ append_assoc _ _ body)
      (elim s [
        | inl (r, p) ↦
            inl (r, body_flushed (write_header w).1 (rw (p) (drop-length w.header_buffer)) v.body)
        | inr (o, p) ↦ inr o
      ])
