-- ===== src/Request/Chunked/Fill.antt =====
-- One byte more: `read_to_buffer`, and the loop for the CR NL behind a chunk.
use qhttp.Base.{
  ℕ, ◌+◌, ◌≤◌, ◌<◌, ◌≡◌, ◌≢◌, refl, ap, ◌∙◌, false, List, [], ◌++◌, append_assoc, Option, none,
  some, ok, arith, ltb, ◌==◌, length, length-append, take-append-drop, or_panic, IoResult, true,
  ◌>>=◌,
}
use qhttp.Buffer.{copy_in, progress_write}
use qhttp.Buffer.Contents.{
  IsValid, contents, capacity, rotated, rotated-IsValid, contents-rotated, length-rotated,
}
use qhttp.Buffer.Fill.{as_mut_lem, copy_in_lem}
use qhttp.Request.{Poll, ready, failed, pending, Filled}
use qhttp.Request.Limit.{IsReader}
use qhttp.Request.Chunked.{ChunkedReader, read_to_buffer, after_read}

-- A reader that keeps its bytes in order, and whose polls put something when they say so, and only
-- then.
pub record IsSource {R : Type 0} (rest : R → List ℕ) (poll_below : R → ℕ → Filled R) : Type 0 where
  pub reader : IsReader rest poll_below
  pub fed :
      (r : R) (room : ℕ)
      → (poll_below r room).poll ≡ ready
      → 0 < room
      → 0 < length (rest r)
      → 0 < length (poll_below r room).put
  pub quiet : (r : R) (room : ℕ) → (poll_below r room).poll ≢ ready → (poll_below r room).put ≡ []

-- A poll that is not ready is an answer of the reader below.
abbrev pub Answered : {R : Type 0} → (R → ℕ → Filled R) → Poll → Type 0
Answered {R} poll_below poll = (r : R) × (room : ℕ) × ((poll_below r room).poll ≡ poll)

abbrev pub PassedOn : {R : Type 0} → (R → ℕ → Filled R) → Poll → Type 0
PassedOn poll_below poll = (poll ≢ ready) × Answered poll_below poll

copy_none : (xs : List ℕ) (at : ℕ) → at ≤ length xs → copy_in xs at [] ≡ some xs
copy_none xs at h = ground (arith, take-append-drop at xs)

module _ {R : Type 0} (rest : R → List ℕ) where
  -- The bytes ahead: in the buffer, or still below.
  abbrev pub ahead : ChunkedReader R → List ℕ
  ahead c = contents c.buffer ++ rest c.reader

  -- `c'` has the same bytes ahead; the counters and the status stay.
  pub record Same (c c' : ChunkedReader R) : Type 0 where
    pub valid : IsValid c'.buffer
    pub room : capacity c'.buffer ≡ capacity c.buffer
    pub bytes : ahead c' ≡ ahead c
    pub status : c'.status ≡ c.status
    pub size : c'.current_chunk_size ≡ c.current_chunk_size
    pub count : c'.current_chunk_count ≡ c.current_chunk_count

  -- A byte more is in the buffer, or the poll ends, pending or with an error of the reader below.
  abbrev pub OneMore :
      (poll_below : R → ℕ → Filled R) → ChunkedReader R → ChunkedReader R → Option Poll → Type 0
  OneMore poll_below c c' none = length (contents c'.buffer) ≡ length (contents c.buffer) + 1
  OneMore poll_below c c' (some poll) =
      PassedOn poll_below poll × (contents c'.buffer ≡ contents c.buffer)

  module _ (poll_below : R → ℕ → Filled R) (source : IsSource rest poll_below) where
    abbrev Filling : ChunkedReader R → IoResult (ChunkedReader R × Option Poll) → Type 0
    Filling c result =
        (c' : ChunkedReader R) × (o : Option Poll) × (result ≡ ok (c', o))
        × Same c c'
        × OneMore poll_below c c' o

    abbrev taken_in : ChunkedReader R → R → List ℕ → Poll → IoResult (ChunkedReader R × Option Poll)
    taken_in c r put poll =
        or_panic (copy_in (rotated c.buffer).inner (rotated c.buffer).write_pointer put)
        >>= λ inner.
            after_read poll_below
              (record c { reader = r; buffer = record (rotated c.buffer) { inner = inner } })
              (length put) poll

    byte_taken :
        (c : ChunkedReader R) (r : R) (put : List ℕ)
        → IsValid c.buffer
        → length (contents c.buffer) < capacity c.buffer
        → put ++ rest r ≡ rest c.reader
        → length put ≡ 1
        → Filling c (taken_in c r put ready)
    byte_taken c r put v space order one =
        let (inner, e, w, ct, cp) = copy_in_lem put v (omega (arith, space, one)) in
        let some_put : ltb 0 (length put) ≡ true = ground (arith, one) in
        (
          record c {
            reader = r;
            buffer = progress_write (record (rotated c.buffer) { inner = inner }) (length put);
          },
          none,
          rw (e, some_put) refl,
          record {
            valid = w;
            room = cp;
            bytes =
                ap (λ (xs : List ℕ). xs ++ rest r) ct
                ∙ append_assoc (contents c.buffer) put (rest r)
                ∙ ap (λ (xs : List ℕ). contents c.buffer ++ xs) order;
            status = refl;
            size = refl;
            count = refl;
          },
          ap length ct
              ∙ length-append (contents c.buffer) put
              ∙ ap (λ (n : ℕ). length (contents c.buffer) + n) one,
        )

    nothing_taken :
        (c : ChunkedReader R) (r : R)
        → IsValid c.buffer
        → rest r ≡ rest c.reader
        → let c' : ChunkedReader R = record c { reader = r; buffer = rotated c.buffer } in
          (copy_in (rotated c.buffer).inner (rotated c.buffer).write_pointer []
            ≡ some (rotated c.buffer).inner)
          × Same c c'
          × (contents c'.buffer ≡ contents c.buffer)
    nothing_taken c r v order =
        let w : IsValid (rotated c.buffer) = rotated-IsValid v in
        (
          copy_none (rotated c.buffer).inner (rotated c.buffer).write_pointer w.in_range,
          record {
            valid = w;
            room = length-rotated v;
            bytes =
                ap (λ (xs : List ℕ). xs ++ rest r) (contents-rotated v)
                ∙ ap (λ (xs : List ℕ). contents c.buffer ++ xs) order;
            status = refl;
            size = refl;
            count = refl;
          },
          contents-rotated v,
        )

    -- By the answer of the reader below.
    taken_in-Filling :
        (c : ChunkedReader R) (r : R) (put : List ℕ) (poll : Poll)
        → IsValid c.buffer
        → length (contents c.buffer) < capacity c.buffer
        → put ++ rest r ≡ rest c.reader
        → (poll ≡ ready → 0 < length put)
        → (poll ≢ ready → put ≡ [])
        → length put ≤ 1
        → Answered poll_below poll
        → Filling c (taken_in c r put poll)
    taken_in-Filling c r put ready v space order fed quiet few told =
        byte_taken c r put v space order (omega (arith, fed refl, few))
    taken_in-Filling c r put (failed e) v space order fed quiet few told =
        let empty : put ≡ [] = quiet (λ h. cc) in
        let (q, s, k) = nothing_taken c r v (rw empty at order) in
        (
          record c { reader = r; buffer = rotated c.buffer },
          some (failed e),
          rw (empty, q) refl,
          s,
          ((λ h. cc, told), k),
        )
    taken_in-Filling c r put pending v space order fed quiet few told =
        let empty : put ≡ [] = quiet (λ h. cc) in
        let (q, s, k) = nothing_taken c r v (rw empty at order) in
        (
          record c { reader = r; buffer = rotated c.buffer },
          some pending,
          rw (empty, q) refl,
          s,
          ((λ h. cc, told), k),
        )

    -- With room in the buffer and bytes below, `read_to_buffer` does not fail by itself: a byte is
    -- added, or the answer of the reader below is passed on.
    pub read_to_buffer_lem :
        (c : ChunkedReader R)
        → IsValid c.buffer
        → length (contents c.buffer) < capacity c.buffer
        → 0 < length (rest c.reader)
        → Filling c (read_to_buffer poll_below c)
    unfolding read_to_buffer
    read_to_buffer_lem c v space below =
        let (window, e, l) = as_mut_lem v in
        let some_room : (length window == 0) ≡ false = ground (arith, l, space) in
        let filled : Filled R = poll_below c.reader 1 in
        rw (e, some_room)
          (taken_in-Filling c filled.reader filled.put filled.poll v space
            (source.reader.in_order c.reader 1) (λ h. source.fed c.reader 1 h (omega arith) below)
            (source.quiet c.reader 1) (source.reader.in_room c.reader 1) (c.reader, 1, refl))
