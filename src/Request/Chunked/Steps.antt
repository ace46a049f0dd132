-- ===== src/Request/Chunked/Steps.antt =====
-- The steps of a poll of a `ChunkedReader`: in a chunk, behind a header, and at the end.
use qhttp.Base.{
  ℕ, ◌+◌, ◌^◌, ◌≤◌, ◌<◌, ◌≡◌, ◌≢◌, ◌⊎◌, refl, sym, ap, ◌∙◌, false, List, [], ◌++◌, append_assoc,
  some, ok, arith, ltb, ◌==◌, if◌then◌else◌, length, length-append, All, inl, IoResult, subst,
}
use qhttp.Buffer.Contents.{IsValid, contents, capacity}
use qhttp.Request.{Poll, ready, failed, pending, Filled}
use qhttp.Request.Chunked.{ChunkedReader, reading_chunk, after_data, chunk_remaining, read_data}
use qhttp.Request.Chunked.Fill.{IsSource, Answered, ahead}
use qhttp.Request.Chunked.Loops.{split_front}
use qhttp.Request.Chunked.Wire.{crlf, wire, concat, IsChunk, Holds}

module _ {R : Type 0} (rest : R → List ℕ) (poll_below : R → ℕ → Filled R)
    (source : IsSource rest poll_below) (after : List ℕ) where
  -- A poll hands out the front of the body, and is ready without a byte at its end only. When it is not
  -- ready, that is the answer of the reader below.
  pub record Polled (body : List ℕ) (f : Filled (ChunkedReader R)) (body' : List ℕ) : Type 0 where
    pub in_order : f.put ++ body' ≡ body
    pub holds : Holds rest f.reader body' after
    pub progress : f.poll ≡ ready → (0 < length f.put) ⊎ (body' ≡ [])
    pub passed_on : f.poll ≢ ready → Answered poll_below f.poll

  abbrev pub Succeeds : List ℕ → IoResult (Filled (ChunkedReader R)) → Type 0
  Succeeds body result =
      (f : Filled (ChunkedReader R)) × (body' : List ℕ) × (result ≡ ok f) × Polled body f body'

  -- The answer of the reader below in a chunk.
  data_read :
      (c : ChunkedReader R) (left : List ℕ) (bs : List (List ℕ)) (put : List ℕ) (poll : Poll)
      → c.status ≡ reading_chunk
      → IsValid c.buffer
      → 18 ≤ capacity c.buffer
      → All IsChunk bs
      → c.current_chunk_size ≡ c.current_chunk_count + (length put + length left)
      → c.current_chunk_size < 2 ^ 64
      → ahead rest c ≡ left ++ (crlf ++ (wire bs ++ after))
      → contents c.buffer ≡ []
      → (poll ≡ ready → 0 < length put)
      → (poll ≢ ready → put ≡ [])
      → Answered poll_below poll
      → (body' : List ℕ) × Polled
          (put ++ (left ++ concat bs))
          (after_data poll_below c put poll)
          body'
  data_read c left bs put ready st v room h size small bytes empty fed quiet told =
      let some_put : (length put == 0) ≡ false = ground (arith, fed refl) in
      (
        left ++ concat bs,
        rw some_put (record {
          in_order = refl;
          holds = record {
            valid = v;
            room = room;
            stage = rw st (
              left,
              bs,
              h,
              refl,
              omega (arith, size, small),
              small,
              bytes,
              (λ k. empty),
              omega (arith, ap length empty),
            );
          };
          progress = λ k. inl (fed refl);
          passed_on = λ k. absurd (k refl);
        }),
      )
  data_read c left bs put (failed e) st v room h size small bytes empty fed quiet told =
      let nothing : put ≡ [] = quiet (λ k. cc) in
      (
        left ++ concat bs,
        record {
          in_order = rw nothing refl;
          holds = record {
            valid = v;
            room = room;
            stage = rw st (
              left,
              bs,
              h,
              refl,
              omega (arith, size, ap length nothing),
              small,
              bytes,
              (λ k. empty),
              omega (arith, ap length empty),
            );
          };
          progress = λ k. cc;
          passed_on = λ k. told;
        },
      )
  data_read c left bs put pending st v room h size small bytes empty fed quiet told =
      let nothing : put ≡ [] = quiet (λ k. cc) in
      (
        left ++ concat bs,
        record {
          in_order = rw nothing refl;
          holds = record {
            valid = v;
            room = room;
            stage = rw st (
              left,
              bs,
              h,
              refl,
              omega (arith, size, ap length nothing),
              small,
              bytes,
              (λ k. empty),
              omega (arith, ap length empty),
            );
          };
          progress = λ k. cc;
          passed_on = λ k. told;
        },
      )

  in_chunk :
      (c : ChunkedReader R) (room remaining : ℕ)
      → chunk_remaining c ≡ some remaining
      → (remaining == 0) ≡ false
      → let filled : Filled R =
          poll_below c.reader (if ltb room remaining then room else remaining) in
        read_data poll_below c room
        ≡ after_data poll_below (record c { reader = filled.reader }) filled.put filled.poll
  unfolding read_data
  in_chunk c room remaining h k = rw (read_data, h, k) refl

  pub remaining-left :
      (c : ChunkedReader R) (n : ℕ)
      → c.current_chunk_size ≡ c.current_chunk_count + n
      → c.current_chunk_size < 2 ^ 64
      → chunk_remaining c ≡ some n
  unfolding chunk_remaining
  remaining-left c n size small = ground (arith, size, small)

  -- In a chunk that is not complete.
  pub read_data_lem :
      (c : ChunkedReader R) (room : ℕ) (left : List ℕ) (bs : List (List ℕ))
      → c.status ≡ reading_chunk
      → IsValid c.buffer
      → 18 ≤ capacity c.buffer
      → All IsChunk bs
      → c.current_chunk_size ≡ c.current_chunk_count + length left
      → c.current_chunk_size < 2 ^ 64
      → ahead rest c ≡ left ++ (crlf ++ (wire bs ++ after))
      → contents c.buffer ≡ []
      → 0 < length left
      → 0 < room
      → (body' : List ℕ) × Polled (left ++ concat bs) (read_data poll_below c room) body'
  read_data_lem c room left bs st v space h size small bytes empty some_left some_room =
      let not_zero : (length left == 0) ≡ false = ground (arith, some_left) in
      let limit : ℕ = if ltb room (length left) then room else length left in
      let filled : Filled R = poll_below c.reader limit in
      let below : rest c.reader ≡ left ++ (crlf ++ (wire bs ++ after)) =
        ap (λ (xs : List ℕ). xs ++ rest c.reader) (sym empty) ∙ bytes in
      let limited : (0 < limit) × (limit ≤ length left) = ground (arith, some_room, some_left) in
      let (more, a, b) =
        split_front filled.put (rest filled.reader) left (crlf ++ (wire bs ++ after))
          (source.reader.in_order c.reader limit ∙ below)
          (omega (arith, source.reader.in_room c.reader limit, limited.1)) in
      let c' : ChunkedReader R = record c { reader = filled.reader } in
      let (body', p) =
        data_read c' more bs filled.put filled.poll st v space h
          (omega (arith, size, ap length a, length-append filled.put more)) small
          (ap (λ (xs : List ℕ). xs ++ rest filled.reader) empty ∙ b) empty
          (λ k. source.fed c.reader limit k limited.0 (
            omega
              (arith, ap length below, length-append left (crlf ++ (wire bs ++ after)), some_left)))
          (source.quiet c.reader limit) (c.reader, limit, refl) in
      let same : read_data poll_below c room ≡ after_data poll_below c' filled.put filled.poll =
        in_chunk c room (length left) (remaining-left c (length left) size small) not_zero in
      (
        body',
        subst (λ x. Polled x (read_data poll_below c room) body')
            (sym (append_assoc filled.put more (concat bs))
              ∙ ap (λ (xs : List ℕ). xs ++ concat bs) (sym a))
            (subst (λ x. Polled (filled.put ++ (more ++ concat bs)) x body') (sym same) p),
      )
