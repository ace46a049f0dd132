-- ===== src/Request/Chunked/Stages.antt =====
-- A poll of a `ChunkedReader` that is in a chunk.
use qhttp.Base.{
  ℕ, suc, ◌+◌, ◌^◌, ◌≤◌, ◌<◌, ◌≡◌, refl, sym, ap, ◌∙◌, List, [], ◌∷◌, ◌++◌, Option, none, some, ok,
  arith, length, length-append, All, subst, ◌>>=◌, drop,
}
use qhttp.Buffer.{progress}
use qhttp.Buffer.Contents.{IsValid, contents, capacity, as_ref-contents}
use qhttp.Buffer.Drain.{progress_lem}
use qhttp.Request.{Poll, Filled}
use qhttp.Request.Chunked.{
  ChunkedReader, waiting_for_chunk, reading_chunk, answer, chunk_remaining, starts_with_crlf,
  read_data, await_crlf, chunk_ended, chunk_left, read_chunk_header, read_chunk_data,
}
use qhttp.Request.Chunked.Fill.{IsSource, ahead}
use qhttp.Request.Chunked.Loops.{await_crlf_lem, Awaited}
use qhttp.Request.Chunked.Wire.{
  crlf, wire, concat, IsChunk, digits_of, length-digits_of, same_front, InChunk,
}
use qhttp.Request.Chunked.Steps.{Polled, Succeeds, read_data_lem, remaining-left}
use qhttp.Request.Chunked.Headers.{read_chunk_header_lem}

module _ {R : Type 0} (rest : R → List ℕ) (poll_below : R → ℕ → Filled R)
    (source : IsSource rest poll_below) (after : List ℕ) where
  -- Behind a chunk that was read to its end.
  chunk_ended_lem :
      (fuel : ℕ) (c : ChunkedReader R) (room : ℕ) (bs : List (List ℕ)) (o : Option Poll)
      → c.status ≡ reading_chunk
      → IsValid c.buffer
      → 18 ≤ capacity c.buffer
      → All IsChunk bs
      → c.current_chunk_size ≡ c.current_chunk_count
      → c.current_chunk_size < 2 ^ 64
      → ahead rest c ≡ crlf ++ (wire bs ++ after)
      → 0 < room
      → 18 < fuel
      → Awaited rest poll_below source c o
      → Succeeds rest poll_below source after (concat bs) (chunk_ended poll_below fuel room c o)
  unfolding chunk_ended starts_with_crlf
  chunk_ended_lem fuel c room bs (some poll) st v space h size small bytes some_room enough w = (
    answer c poll,
    concat bs,
    refl,
    record {
      in_order = refl;
      holds = record {
        valid = v;
        room = space;
        stage = rw st (
          [],
          bs,
          h,
          refl,
          omega (arith, size),
          small,
          bytes,
          (λ k. absurd (omega (arith, k))),
          w.1,
        );
      };
      progress = λ k. absurd (w.0.0 k);
      passed_on = λ k. w.0.1;
    },
  )
  chunk_ended_lem fuel c room bs none st v space h size small bytes some_room enough held =
      let (w, k, cp) = progress_lem {b = c.buffer} 2 v (omega arith) in
      let gone : contents (progress c.buffer 2) ≡ [] = k ∙ ap (λ (xs : List ℕ). drop 2 xs) held in
      let below : rest c.reader ≡ wire bs ++ after =
        same_front crlf (rest c.reader) (wire bs ++ after)
          (ap (λ (xs : List ℕ). xs ++ rest c.reader) (sym held) ∙ bytes) in
      let (some_digits, few) = length-digits_of bs in
      let long : length (digits_of bs ++ crlf) ≡ length (digits_of bs) + 2 =
        length-append (digits_of bs) crlf in
      let c' : ChunkedReader R = record c {
        buffer = progress c.buffer 2;
        status = waiting_for_chunk;
      } in
      let (f, body', q, p) =
        read_chunk_header_lem rest poll_below source after fuel c' room (concat bs) refl w
          (omega (arith, cp, space))
          (
            bs,
            h,
            refl,
            ap (λ (xs : List ℕ). xs ++ rest c.reader) gone ∙ below,
            omega (arith, ap length gone, long),
          )
          some_room enough in
      (f, body', ended v held ∙ q, p)
    where
      ended :
          IsValid c.buffer
          → contents c.buffer ≡ crlf
          → chunk_ended poll_below fuel room c none
            ≡ read_chunk_header poll_below fuel
                (record c { buffer = progress c.buffer 2; status = waiting_for_chunk })
                room
      ended v held = rw (as_ref-contents v, ◌>>=◌, held) refl

  in_chunk :
      (fuel : ℕ) (c : ChunkedReader R) (room : ℕ)
      → c.status ≡ reading_chunk
      → read_chunk_data poll_below fuel c room
        ≡ chunk_left poll_below fuel room c (chunk_remaining c)
  unfolding read_chunk_data
  in_chunk fuel c room st = rw st refl

  at_chunk_end :
      (fuel : ℕ) (c : ChunkedReader R) (room : ℕ)
      → chunk_left poll_below fuel room c (some 0)
        ≡ (await_crlf poll_below 3 c >>= λ a. chunk_ended poll_below fuel room a.0 a.1)
  unfolding chunk_left
  at_chunk_end fuel c room = refl

  inside :
      (fuel : ℕ) (c : ChunkedReader R) (room n : ℕ)
      → chunk_left poll_below fuel room c (some (suc n)) ≡ ok (read_data poll_below c room)
  unfolding chunk_left
  inside fuel c room n = ground arith

  pub read_chunk_data_lem :
      (fuel : ℕ) (c : ChunkedReader R) (room : ℕ) (body : List ℕ)
      → c.status ≡ reading_chunk
      → IsValid c.buffer
      → 18 ≤ capacity c.buffer
      → InChunk rest c body after
      → 0 < room
      → 18 < fuel
      → Succeeds rest poll_below source after body (read_chunk_data poll_below fuel c room)
  read_chunk_data_lem fuel c room body st v space ([], bs, h, is, size, small, bytes, empty, short)
        some_room enough =
      let (c', o, q, s, w) =
        await_crlf_lem rest poll_below source 3 c (wire bs ++ after) v (omega (arith, space)) bytes
          (omega (arith, short)) (omega arith) in
      let (f, body', k, p) =
        chunk_ended_lem fuel c' room bs o (s.status ∙ st) s.valid (omega (arith, s.room, space)) h
          (omega (arith, s.size, s.count, size)) (omega (arith, s.size, small)) (s.bytes ∙ bytes)
          some_room enough w in
      (
        f,
        body',
        in_chunk fuel c room st
            ∙ ap (chunk_left poll_below fuel room c)
                (remaining-left rest poll_below source after c 0 size small)
            ∙ at_chunk_end fuel c room
            ∙ ap (λ m. m >>= λ a. chunk_ended poll_below fuel room a.0 a.1) q
            ∙ k,
        subst (λ x. Polled rest poll_below source after x f body') (sym is) p,
      )
  read_chunk_data_lem fuel c room body st v space
        (x ∷ left, bs, h, is, size, small, bytes, empty, short) some_room enough =
      let (body', p) =
        read_data_lem rest poll_below source after c room (x ∷ left) bs st v space h size small
          bytes (empty (omega arith)) (omega arith) some_room in
      (
        read_data poll_below c room,
        body',
        in_chunk fuel c room st
            ∙ ap (chunk_left poll_below fuel room c)
                (remaining-left rest poll_below source after c (length (x ∷ left)) size small)
            ∙ inside fuel c room (length left),
        subst (λ y. Polled rest poll_below source after y (read_data poll_below c room) body')
            (sym is) p,
      )
