-- ===== src/Request/Chunked/Ends.antt =====
-- A poll of a `ChunkedReader` at the end of the body, and behind a header.
use qhttp.Base.{
  ℕ, ◌+◌, ◌≤◌, ◌<◌, ◌≡◌, refl, ap, ◌∙◌, true, List, [], ◌∷◌, ◌++◌, append_assoc, Option, none, some,
  arith, ltb, length, length-append, All, inr, ◌>>=◌, drop, drop-all,
}
use qhttp.Buffer.{progress}
use qhttp.Buffer.Contents.{IsValid, contents, capacity, as_ref-contents}
use qhttp.Buffer.Drain.{progress_lem}
use qhttp.Request.{Poll, ready, Filled}
use qhttp.Request.Chunked.{
  ChunkedReader, reading_chunk, done, answer, starts_with_crlf, read_data, await_crlf,
  read_terminating_crlf, begin_chunk, terminated,
}
use qhttp.Request.Chunked.Fill.{IsSource, ahead}
use qhttp.Request.Chunked.Loops.{await_crlf_lem, Awaited}
use qhttp.Request.Chunked.Wire.{
  crlf, wire, concat, IsChunk, digits_of, size_of, behind, length-digits_of,
}
use qhttp.Request.Chunked.Steps.{Succeeds, read_data_lem}

module _ {R : Type 0} (rest : R → List ℕ) (poll_below : R → ℕ → Filled R)
    (source : IsSource rest poll_below) (after : List ℕ) where
  at_end :
      (c : ChunkedReader R)
      → c.status ≡ done
      → read_terminating_crlf poll_below c
        ≡ (await_crlf poll_below 3 c >>= λ a. terminated poll_below a.0 a.1)
  unfolding read_terminating_crlf
  at_end c st = rw st refl

  -- The end of the body.
  pub read_terminating_crlf_lem :
      (c : ChunkedReader R)
      → c.status ≡ done
      → IsValid c.buffer
      → 18 ≤ capacity c.buffer
      → ahead rest c ≡ crlf ++ after
      → length (contents c.buffer) ≤ 2
      → Succeeds rest poll_below source after [] (read_terminating_crlf poll_below c)
  unfolding terminated starts_with_crlf
  read_terminating_crlf_lem c st v space bytes few =
      let (c', o, q, s, w) =
        await_crlf_lem rest poll_below source 3 c after v (omega (arith, space)) bytes few
          (omega arith) in
      let same : read_terminating_crlf poll_below c ≡ terminated poll_below c' o =
        at_end c st ∙ ap (λ m. m >>= λ a. terminated poll_below a.0 a.1) q in
      let (f, body', k, p) =
        ended c' o (s.status ∙ st) s.valid (omega (arith, s.room, space)) (s.bytes ∙ bytes) w in
      (f, body', same ∙ k, p)
    where
      ended :
          (c' : ChunkedReader R) (o : Option Poll)
          → c'.status ≡ done
          → IsValid c'.buffer
          → 18 ≤ capacity c'.buffer
          → ahead rest c' ≡ crlf ++ after
          → Awaited rest poll_below source c' o
          → Succeeds rest poll_below source after [] (terminated poll_below c' o)
      ended c' none t v' room' b w =
          let two : length (contents c'.buffer) ≤ 2 = omega (arith, ap length w) in
          (
            answer c' ready,
            [],
            rw (as_ref-contents v', w) refl,
            record {
              in_order = refl;
              holds = record { valid = v'; room = room'; stage = rw t (refl, b, two) };
              progress = λ h. inr refl;
              passed_on = λ h. absurd (h refl);
            },
          )
      ended c' (some poll) t v' room' b w = (
        answer c' poll,
        [],
        refl,
        record {
          in_order = refl;
          holds = record { valid = v'; room = room'; stage = rw t (refl, b, omega (arith, w.1)) };
          progress = λ h. absurd (w.0.0 h);
          passed_on = λ h. w.0.1;
        },
      )

  -- Behind a header.
  pub begin_chunk_lem :
      (c : ChunkedReader R) (room : ℕ) (bs : List (List ℕ))
      → IsValid c.buffer
      → 18 ≤ capacity c.buffer
      → All IsChunk bs
      → contents c.buffer ≡ digits_of bs ++ crlf
      → rest c.reader ≡ behind bs ++ after
      → 0 < room
      → Succeeds rest poll_below source after
          (concat bs)
          (begin_chunk poll_below c (length (digits_of bs ++ crlf)) (size_of bs) room)
  unfolding begin_chunk
  begin_chunk_lem c room [] v space h held below some_room =
      let (w, k, cp) = progress_lem {b = c.buffer} 3 v (omega arith) in
      let gone : contents (progress c.buffer 3) ≡ [] = k ∙ ap (λ (xs : List ℕ). drop 3 xs) held in
      read_terminating_crlf_lem
        (record c {
          buffer = progress c.buffer 3;
          current_chunk_size = 0;
          current_chunk_count = 0;
          status = done;
        })
        refl w (omega (arith, cp, space)) (ap (λ (xs : List ℕ). xs ++ rest c.reader) gone ∙ below)
        (omega (arith, ap length gone))
  begin_chunk_lem c room (b ∷ bs) v space h held below some_room =
      let n : ℕ = length (digits_of (b ∷ bs) ++ crlf) in
      let (some_digits, few) = length-digits_of (b ∷ bs) in
      let long : n ≡ length (digits_of (b ∷ bs)) + 2 = length-append (digits_of (b ∷ bs)) crlf in
      let (w, k, cp) = progress_lem {b = c.buffer} n v (omega (arith, long, few)) in
      let gone : contents (progress c.buffer n) ≡ [] =
        k
        ∙ ap (λ (xs : List ℕ). drop n xs) held
        ∙ drop-all n (digits_of (b ∷ bs) ++ crlf) (omega arith) in
      let c' : ChunkedReader R = record c {
        buffer = progress c.buffer n;
        current_chunk_size = length b;
        current_chunk_count = 0;
        status = reading_chunk;
      } in
      let (body', p) =
        read_data_lem rest poll_below source after c' room b bs refl w (omega (arith, cp, space))
          h.1 (omega arith) h.0.1
          (ap (λ (xs : List ℕ). xs ++ rest c.reader) gone
            ∙ below
            ∙ append_assoc b (crlf ++ wire bs) after
            ∙ ap (λ (xs : List ℕ). b ++ xs) (append_assoc crlf (wire bs) after))
          gone h.0.0 some_room in
      let some_size : ltb 0 (length b) ≡ true = ground (arith, h.0.0) in
      rw some_size (read_data poll_below c' room, body', refl, p)
