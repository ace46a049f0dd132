-- ===== src/Request/Chunked/Headers.antt =====
-- A poll of a `ChunkedReader` that waits for a chunk.
use qhttp.Base.{
  ℕ, ◌+◌, ◌≤◌, ◌<◌, ◌≡◌, refl, sym, ap, ◌∙◌, List, ◌++◌, append_assoc, some, ok, arith, length,
  length-append, All, subst, ◌>>=◌, slice, take-length, or_panic,
}
use qhttp.Buffer.Contents.{IsValid, contents, capacity, as_ref-contents}
use qhttp.Parse.Chunk.{parse_chunk_header}
use qhttp.Request.{Filled}
use qhttp.Request.Chunked.{
  ChunkedReader, waiting_for_chunk, Found, found, stopped, answer, find_header, begin_chunk,
  header_found, read_chunk_header,
}
use qhttp.Request.Chunked.Fill.{IsSource, ahead}
use qhttp.Request.Chunked.Loops.{find_header_lem, Sought}
use qhttp.Request.Chunked.Wire.{
  crlf, wire, concat, IsChunk, digits_of, size_of, behind, wire-header, digits_of-hex,
  length-digits_of, same_front, parse_chunk_header-digits_of, Waiting,
}
use qhttp.Request.Chunked.Steps.{Polled, Succeeds}
use qhttp.Request.Chunked.Ends.{begin_chunk_lem}

slice_all : (xs : List ℕ) → slice xs 0 (length xs) ≡ some xs
slice_all xs = ground (arith, take-length xs)

module _ {R : Type 0} (rest : R → List ℕ) (poll_below : R → ℕ → Filled R)
    (source : IsSource rest poll_below) (after : List ℕ) where
  header_found_lem :
      (c : ChunkedReader R) (room : ℕ) (bs : List (List ℕ)) (f : Found)
      → c.status ≡ waiting_for_chunk
      → IsValid c.buffer
      → 18 ≤ capacity c.buffer
      → All IsChunk bs
      → ahead rest c ≡ wire bs ++ after
      → 0 < room
      → Sought rest poll_below source (digits_of bs) (digits_of-hex bs) (length-digits_of bs).0 c f
      → Succeeds rest poll_below source after (concat bs) (header_found poll_below room c f)
  unfolding header_found
  header_found_lem c room bs (stopped poll) st v space h bytes some_room (unready, short) = (
    answer c poll,
    concat bs,
    refl,
    record {
      in_order = refl;
      holds = record { valid = v; room = space; stage = rw st (bs, h, refl, bytes, short) };
      progress = λ k. absurd (unready.0 k);
      passed_on = λ k. unready.1;
    },
  )
  header_found_lem c room bs (found idx) st v space h bytes some_room (is, held) =
      let header : List ℕ = digits_of bs ++ crlf in
      let below : rest c.reader ≡ behind bs ++ after =
        same_front header (rest c.reader) (behind bs ++ after) (
          ap (λ (xs : List ℕ). xs ++ rest c.reader) (sym held)
          ∙ bytes
          ∙ ap (λ (xs : List ℕ). xs ++ after) (wire-header bs)
          ∙ append_assoc header (behind bs) after) in
      let (f, body', k, p) =
        begin_chunk_lem rest poll_below source after c room bs v space h held below some_room in
      (
        f,
        body',
        ap (λ i. header_found poll_below room c (found i)) is
            ∙ begins c header (size_of bs) v held (parse_chunk_header-digits_of bs h)
            ∙ k,
        p,
      )
    where
      begins :
          (c : ChunkedReader R) (header : List ℕ) (size : ℕ)
          → IsValid c.buffer
          → contents c.buffer ≡ header
          → parse_chunk_header header ≡ ok size
          → header_found poll_below room c (found (length header))
            ≡ begin_chunk poll_below c (length header) size room
      begins c header size v held e =
          rw (as_ref-contents v, ◌>>=◌, held, slice_all header, or_panic, e) refl

  seeking :
      (fuel : ℕ) (c : ChunkedReader R) (room : ℕ)
      → c.status ≡ waiting_for_chunk
      → read_chunk_header poll_below fuel c room
        ≡ (find_header poll_below fuel c >>= λ a. header_found poll_below room a.0 a.1)
  unfolding read_chunk_header
  seeking fuel c room st = rw st refl

  pub read_chunk_header_lem :
      (fuel : ℕ) (c : ChunkedReader R) (room : ℕ) (body : List ℕ)
      → c.status ≡ waiting_for_chunk
      → IsValid c.buffer
      → 18 ≤ capacity c.buffer
      → Waiting rest c body after
      → 0 < room
      → 18 < fuel
      → Succeeds rest poll_below source after body (read_chunk_header poll_below fuel c room)
  read_chunk_header_lem fuel c room body st v space (bs, h, is, bytes, short) some_room enough =
      let (some_digits, few) = length-digits_of bs in
      let long : length (digits_of bs ++ crlf) ≡ length (digits_of bs) + 2 =
        length-append (digits_of bs) crlf in
      let (c', f, q, s, w) =
        find_header_lem rest poll_below source (digits_of bs) (digits_of-hex bs) some_digits fuel c
          (behind bs ++ after) v (omega (arith, long, few, space))
          (bytes
            ∙ ap (λ (xs : List ℕ). xs ++ after) (wire-header bs)
            ∙ append_assoc (digits_of bs ++ crlf) (behind bs) after)
          (omega (arith, short)) (omega (arith, long, few, enough)) in
      let (g, body', k, p) =
        header_found_lem c' room bs f (s.status ∙ st) s.valid (omega (arith, s.room, space)) h
          (s.bytes ∙ bytes) some_room w in
      (
        g,
        body',
        seeking fuel c room st ∙ ap (λ m. m >>= λ a. header_found poll_below room a.0 a.1) q ∙ k,
        subst (λ x. Polled rest poll_below source after x g body') (sym is) p,
      )
