-- ===== src/Request/Chunked/Polls.antt =====
-- What the polls of a `ChunkedReader` hand out.
use qhttp.Base.{
  ℕ, suc, ◌+◌, ◌^◌, ◌≤◌, ◌<◌, ◌≡◌, ◌≢◌, ◌⊎◌, inl, inr, append-nil, refl, sym, ap, ◌∙◌, List, [],
  ◌∷◌, ◌++◌, append_assoc, none, ok, arith, length, length-append, All, IoResult, subst, ◌>>=◌,
  replicate, length-replicate,
}
use qhttp.Buffer.{with_capacity}
use qhttp.Buffer.Contents.{IsValid, capacity}
use qhttp.Request.{Poll, ready, failed, pending, Filled}
use qhttp.Request.Chunked.{
  ChunkedReader, ChunkedReaderStatus, waiting_for_chunk, reading_chunk, done, poll_by, poll_read,
  new, new_with_buffer,
}
use qhttp.Request.Chunked.Fill.{IsSource, Answered}
use qhttp.Request.Chunked.Wire.{crlf, wire, concat, IsChunk, digits_of, Stage, Holds}
use qhttp.Request.Chunked.Steps.{Polled, Succeeds}
use qhttp.Request.Chunked.Ends.{read_terminating_crlf_lem}
use qhttp.Request.Chunked.Headers.{read_chunk_header_lem}
use qhttp.Request.Chunked.Stages.{read_chunk_data_lem}

-- The polls for `rooms` bytes: the reader after them, all bytes that were put, and the answers.
abbrev pub polls :
    {R : Type 0}
    → (R → ℕ → Filled R)
    → ChunkedReader R
    → List ℕ
    → IoResult (ChunkedReader R × List ℕ × List Poll)
polls poll_below c [] = ok (c, [], [])
polls poll_below c (room ∷ rooms) = poll_read poll_below c room >>= λ f.
    polls poll_below f.reader rooms >>= λ (c', put, answers).
    ok (c', f.put ++ put, f.poll ∷ answers)

abbrev pub readies : List Poll → ℕ
readies [] = 0
readies (ready ∷ answers) = suc (readies answers)
readies (failed e ∷ answers) = readies answers
readies (pending ∷ answers) = readies answers

-- Ready, or an answer of the reader below.
abbrev pub IsPassedOn : {R : Type 0} → (R → ℕ → Filled R) → Poll → Type 0
IsPassedOn poll_below poll = (poll ≡ ready) ⊎ Answered poll_below poll

module _ {R : Type 0} (rest : R → List ℕ) (poll_below : R → ℕ → Filled R)
    (source : IsSource rest poll_below) (after : List ℕ) where
  by_status :
      (s : ChunkedReaderStatus) (fuel : ℕ) (c : ChunkedReader R) (room : ℕ) (body : List ℕ)
      → c.status ≡ s
      → IsValid c.buffer
      → 18 ≤ capacity c.buffer
      → Stage rest s c body after
      → 0 < room
      → 18 < fuel
      → Succeeds rest poll_below source after body (poll_by poll_below s fuel c room)
  unfolding poll_by
  by_status waiting_for_chunk fuel c room body st v space stage some_room enough =
      read_chunk_header_lem rest poll_below source after fuel c room body st v space stage some_room
        enough
  by_status reading_chunk fuel c room body st v space stage some_room enough =
      read_chunk_data_lem rest poll_below source after fuel c room body st v space stage some_room
        enough
  by_status done fuel c room body st v space (is, bytes, few) some_room enough =
      let (f, body', q, p) =
        read_terminating_crlf_lem rest poll_below source after c st v space bytes few in
      (f, body', q, subst (λ x. Polled rest poll_below source after x f body') (sym is) p)

  -- One poll.
  poll_read_lem :
      (c : ChunkedReader R) (room : ℕ) (body : List ℕ)
      → Holds rest c body after
      → 0 < room
      → Succeeds rest poll_below source after body (poll_read poll_below c room)
  unfolding poll_read
  poll_read_lem c room body h some_room =
      by_status c.status (suc (suc (capacity c.buffer))) c room body refl h.valid h.room h.stage
        some_room (omega (arith, h.room))

  IsPassedOn-cases :
      (poll : Poll) → (poll ≢ ready → Answered poll_below poll) → IsPassedOn poll_below poll
  IsPassedOn-cases ready h = inl refl
  IsPassedOn-cases (failed e) h = inr (h (λ k. cc))
  IsPassedOn-cases pending h = inr (h (λ k. cc))

  -- A poll more: it is counted when it is ready, and has then put a byte, or the body is at its end.
  progress-readies :
      (put more : List ℕ) (poll : Poll) (answers : List Poll) (body' left : List ℕ)
      → (poll ≡ ready → (0 < length put) ⊎ (body' ≡ []))
      → more ++ left ≡ body'
      → (readies answers ≤ length more) ⊎ (left ≡ [])
      → (readies (poll ∷ answers) ≤ length (put ++ more)) ⊎ (left ≡ [])
  progress-readies put more poll answers body' left h e (inr k) = inr k
  progress-readies put more ready answers body' left h e (inl k) = elim (h refl) [
    | inl some_put ↦ inl (omega (arith, k, some_put, length-append put more))
    | inr at_end ↦ inr (nothing_left more left (e ∙ at_end))
  ]
    where
      nothing_left : (xs ys : List ℕ) → xs ++ ys ≡ [] → ys ≡ []
      nothing_left [] ys q = q
      nothing_left (x ∷ xs) ys q = absurd cc
  progress-readies put more (failed x) answers body' left h e (inl k) =
      inl (omega (arith, k, length-append put more))
  progress-readies put more pending answers body' left h e (inl k) =
      inl (omega (arith, k, length-append put more))

  -- What the polls of `rooms` hand out of `body`.
  record HandsOut (body : List ℕ) (c : ChunkedReader R) (rooms : List ℕ) : Type 0 where
    reader : ChunkedReader R
    put : List ℕ
    left : List ℕ
    answers : List Poll
    result : polls poll_below c rooms ≡ ok (reader, put, answers)
    in_order : put ++ left ≡ body
    passed_on : All (IsPassedOn poll_below) answers
    progress : (readies answers ≤ length put) ⊎ (left ≡ [])
    holds : Holds rest reader left after
    count : length answers ≡ length rooms

  polls-HandsOut :
      (rooms : List ℕ) (c : ChunkedReader R) (body : List ℕ)
      → Holds rest c body after
      → All (λ room. 0 < room) rooms
      → HandsOut body c rooms
  polls-HandsOut [] c body h rooms = record {
    reader = c;
    put = [];
    left = body;
    answers = [];
    result = refl;
    in_order = refl;
    passed_on = tt;
    progress = inl (omega arith);
    holds = h;
    count = refl;
  }
  polls-HandsOut (room ∷ rooms) c body h some_rooms =
      let (f, body₁, q, p) = poll_read_lem c room body h some_rooms.0 in
      let o = polls-HandsOut rooms f.reader body₁ p.holds some_rooms.1 in
      record {
        reader = o.reader;
        put = f.put ++ o.put;
        left = o.left;
        answers = f.poll ∷ o.answers;
        result = rw (q, o.result) refl;
        in_order =
            append_assoc f.put o.put o.left
            ∙ ap (λ (xs : List ℕ). f.put ++ xs) o.in_order
            ∙ p.in_order;
        passed_on = (IsPassedOn-cases f.poll p.passed_on, o.passed_on);
        progress =
            progress-readies f.put o.put f.poll o.answers body₁ o.left p.progress o.in_order
              o.progress;
        holds = o.holds;
        count = ap suc o.count;
      }

-- A new reader holds all of the body.
new-Holds :
    {R : Type 0} (rest : R → List ℕ) (reader : R) (size : ℕ) (bs : List (List ℕ)) (after : List ℕ)
    → 18 ≤ size
    → size < 2 ^ 63
    → All IsChunk bs
    → rest reader ≡ wire bs ++ after
    → Holds rest (new reader size none) (concat bs) after
unfolding new new_with_buffer with_capacity
new-Holds rest reader size bs after room small h below =
    let long : length {A = ℕ} (replicate size 0) ≡ size = length-replicate {A = ℕ} size 0 in
    let longer : length (digits_of bs ++ crlf) ≡ length (digits_of bs) + 2 =
      length-append (digits_of bs) crlf in
    record {
      valid = record {
        ordered = omega arith;
        in_range = omega arith;
        small = omega (arith, long, small);
      };
      room = omega (arith, long, room);
      stage = (bs, h, refl, below, omega (arith, longer));
    }

-- A body that a `ChunkedWriter` has sent, in chunks that are not empty and shorter than 2^64 bytes,
-- with anything behind it, is handed out by a new `ChunkedReader`, whatever rooms it is polled with,
-- none of them empty, and however the bytes come. No poll panics. The bytes put are a front of the
-- bytes of the chunks, in their order. No poll fails or waits but with an answer that the reader below
-- gives: the framing is never refused. Each poll that is ready has put a byte, until the whole body
-- has been put. The buffer can hold a header of 18 bytes and is shorter than 2^63. The reader below
-- keeps its bytes in order; when it is ready, and has bytes left, it puts some, and else none.
pub polls-wire :
    {R : Type 0} (rest : R → List ℕ) (poll_below : R → ℕ → Filled R)
    (source : IsSource rest poll_below) (reader : R) (size : ℕ) (bs : List (List ℕ))
    (after rooms : List ℕ)
    → 18 ≤ size
    → size < 2 ^ 63
    → All IsChunk bs
    → rest reader ≡ wire bs ++ after
    → All (λ room. 0 < room) rooms
    → (c : ChunkedReader R) × (put left : List ℕ) × (answers : List Poll) × (polls poll_below
          (new reader size none)
          rooms
        ≡ ok (c, put, answers))
      × (put ++ left ≡ concat bs)
      × All (IsPassedOn poll_below) answers
      × ((readies answers ≤ length put) ⊎ (left ≡ []))
polls-wire rest poll_below source reader size bs after rooms room small h below some_rooms =
    let o =
      polls-HandsOut rest poll_below source after rooms (new reader size none) (concat bs)
        (new-Holds rest reader size bs after room small h below) some_rooms in
    (o.reader, o.put, o.left, o.answers, o.result, o.in_order, o.passed_on, o.progress)

all_ready :
    {R : Type 0} (poll_below : R → ℕ → Filled R)
    → ((r : R) (room : ℕ) → (poll_below r room).poll ≡ ready)
    → (answers : List Poll) → All (IsPassedOn poll_below) answers
    → All (λ poll. poll ≡ ready) answers × (readies answers ≡ length answers)
all_ready poll_below never_waits [] h = (tt, refl)
all_ready poll_below never_waits (ready ∷ answers) h =
    let (k, n) = all_ready poll_below never_waits answers h.1 in ((refl, k), ap suc n)
all_ready poll_below never_waits (failed e ∷ answers) (inl k, h) = absurd cc
all_ready poll_below never_waits (failed e ∷ answers) (inr (r, room, k), h) =
    let waits = never_waits r room in absurd cc
all_ready poll_below never_waits (pending ∷ answers) (inl k, h) = absurd cc
all_ready poll_below never_waits (pending ∷ answers) (inr (r, room, k), h) =
    let waits = never_waits r room in absurd cc

no_more : (put left body : List ℕ) → put ++ left ≡ body → length body ≤ length put → put ≡ body
no_more put [] body e h = sym (append-nil put) ∙ e
no_more put (x ∷ left) body e h =
    absurd (omega (arith, h, ap length e, length-append put (x ∷ left)))

-- A body that a `ChunkedWriter` has sent, in chunks that are not empty and shorter than 2^64 bytes,
-- with anything behind it, comes out of a new `ChunkedReader` whole: after at least as many polls as
-- the body has bytes, each with some room, the bytes put are all bytes of the chunks, in their order,
-- and every poll was ready. The buffer can hold a header of 18 bytes and is shorter than 2^63. The
-- reader below is always ready and keeps its bytes in order; when it has bytes left, it puts some, and
-- else none.
pub polls-whole :
    {R : Type 0} (rest : R → List ℕ) (poll_below : R → ℕ → Filled R)
    (source : IsSource rest poll_below) (reader : R) (size : ℕ) (bs : List (List ℕ))
    (after rooms : List ℕ)
    → 18 ≤ size
    → size < 2 ^ 63
    → All IsChunk bs
    → rest reader ≡ wire bs ++ after
    → All (λ room. 0 < room) rooms
    → ((r : R) (room : ℕ) → (poll_below r room).poll ≡ ready)
    → length (concat bs) ≤ length rooms
    → (c : ChunkedReader R) × (answers : List Poll) × (polls poll_below (new reader size none) rooms
        ≡ ok (c, concat bs, answers))
      × All (λ poll. poll ≡ ready) answers
polls-whole rest poll_below source reader size bs after rooms room small h below some_rooms
      never_waits enough =
    let o =
      polls-HandsOut rest poll_below source after rooms (new reader size none) (concat bs)
        (new-Holds rest reader size bs after room small h below) some_rooms in
    let (k, n) = all_ready poll_below never_waits o.answers o.passed_on in
    let whole : o.put ≡ concat bs = elim o.progress [
      | inl p ↦ no_more o.put o.left (concat bs) o.in_order (omega (arith, p, n, o.count, enough))
      | inr p ↦ sym (append-nil o.put) ∙ ap (λ (xs : List ℕ). o.put ++ xs) (sym p) ∙ o.in_order
    ] in
    (o.reader, o.answers, o.result ∙ ap (λ (xs : List ℕ). ok (o.reader, xs, o.answers)) whole, k)
