-- ===== src/Request/Chunked.antt =====
-- request.rs: `ChunkedReader`, which reads a body that comes in chunks. The reader below is a
-- parameter, as for `LimitReader`. The buffer is `None` in the source only after the drop, which
-- gives it back to the pool. A panic of the buffer is the third outcome of the result.
pub mod Fill
pub mod Loops
pub mod Wire
pub mod Steps
pub mod Ends
pub mod Headers
pub mod Stages
pub mod Polls
mod Tests
use qhttp.Base.{
  ℕ, zero, suc, Bool, List, [], ◌∷◌, Option, none, some, ok, err, panic, ◌>>=◌, or_panic, ltb, leb,
  ◌==◌, ◌&&◌, if◌then◌else◌, length, slice, IoResult, IoError, add_usize, sub_usize,
}
use qhttp.Buffer.{
  Buffer, with_capacity, set_capacity, as_ref, as_mut, copy_in, progress, progress_write,
}
use qhttp.Parse.Chars.{cr, nl}
use qhttp.Parse.Chunk.{find_chunk_header_end, parse_chunk_header}
use qhttp.Request.{Poll, ready, failed, pending, Filled}

pub data ChunkedReaderStatus : Type 0 where
  waiting_for_chunk reading_chunk done : ChunkedReaderStatus

pub record ChunkedReader (R : Type 0) : Type 0 where
  pub reader : R
  pub buffer : Buffer
  pub status : ChunkedReaderStatus
  pub current_chunk_size : ℕ
  pub current_chunk_count : ℕ

unfoldable pub new_with_buffer : {R : Type 0} → R → Buffer → ChunkedReader R
new_with_buffer reader buffer = record {
  reader = reader;
  buffer = buffer;
  status = waiting_for_chunk;
  current_chunk_size = 0;
  current_chunk_count = 0;
}

-- `new`, with the buffer that the pool has, if it has one.
unfoldable pub new :
    {R : Type 0} → R → (buffer_size : ℕ) → (pooled : Option Buffer) → ChunkedReader R
new reader buffer_size none = new_with_buffer reader (with_capacity buffer_size)
new reader buffer_size (some buffer) = new_with_buffer reader (set_capacity buffer buffer_size)

-- A poll that ends here, with nothing put into the buffer of the caller.
abbrev pub answer : {R : Type 0} → ChunkedReader R → Poll → Filled (ChunkedReader R)
answer c poll = record { reader = c; put = []; poll = poll }

-- The bytes of the chunk that are left; nothing if the counters are wrong, which is an error.
unfoldable pub chunk_remaining : {R : Type 0} → ChunkedReader R → Option ℕ
chunk_remaining c =
    if ltb c.current_chunk_size c.current_chunk_count
    then none
    else some (sub_usize c.current_chunk_size c.current_chunk_count)

-- Whether the unread bytes begin with CR NL; at least two are there.
unfoldable pub starts_with_crlf : List ℕ → IoResult Bool
starts_with_crlf (a ∷ b ∷ rest) = ok ((a == cr) && (b == nl))
starts_with_crlf unread = panic

-- The end of a chunk header, or the poll with which the search for it ends.
pub data Found : Type 0 where
  found : ℕ → Found
  stopped : Poll → Found

module _ {R : Type 0} (poll_below : R → (room : ℕ) → Filled R) where
  -- What `read_to_buffer` does with the answer of the reader below.
  abbrev pub after_read :
      ChunkedReader R → (n : ℕ) → Poll → IoResult (ChunkedReader R × Option Poll)
  after_read c n ready =
      if ltb 0 n
      then ok (record c { buffer = progress_write c.buffer n }, none)
      else ok (c, some (failed IoError.unexpected_eof))
  after_read c n (failed e) = ok (c, some (failed e))
  after_read c n pending = ok (c, some pending)

  -- One byte more in the buffer, or the poll to return with.
  unfoldable pub read_to_buffer : ChunkedReader R → IoResult (ChunkedReader R × Option Poll)
  read_to_buffer c = as_mut c.buffer >>= λ a.
      let (buffer, window) = a in
      if length window == 0
      then ok (record c { buffer = buffer }, some (failed IoError.other))
      else (let filled = poll_below c.reader 1 in
          or_panic (copy_in buffer.inner buffer.write_pointer filled.put) >>= λ inner.
          after_read (record c { reader = filled.reader; buffer = record buffer { inner = inner } })
            (length filled.put) filled.poll)

  -- What `read_data` does with the answer of the reader below.
  abbrev pub after_data : ChunkedReader R → (put : List ℕ) → Poll → Filled (ChunkedReader R)
  after_data c put ready =
      if length put == 0 then answer c (failed IoError.unexpected_eof) else record {
        reader = record c { current_chunk_count = add_usize c.current_chunk_count (length put) };
        put = put;
        poll = ready;
      }
  after_data c put (failed e) = answer c (failed e)
  after_data c put pending = answer c pending

  unfoldable pub read_data : ChunkedReader R → (room : ℕ) → Filled (ChunkedReader R)
  read_data c room = elim (chunk_remaining c) [
    | some remaining ↦
        if remaining == 0
        then answer c (failed IoError.other)
        else (let filled = poll_below c.reader (if ltb room remaining then room else remaining) in
            after_data (record c { reader = filled.reader }) filled.put filled.poll)
    | none ↦ answer c (failed IoError.other)
  ]

  -- The loop for two bytes; `fuel` bounds its reads.
  unfoldable pub await_crlf :
      (fuel : ℕ) → ChunkedReader R → IoResult (ChunkedReader R × Option Poll)
  await_crlf zero c = panic
  await_crlf (suc fuel) c = as_ref c.buffer >>= λ unread.
      if ltb (length unread) 2
      then (read_to_buffer c >>= λ a. elim a.1 [
        | none ↦ await_crlf fuel a.0
        | some poll ↦ ok (a.0, some poll)
      ])
      else ok (c, none)

  -- What `read_terminating_crlf` does when its loop ends.
  unfoldable pub terminated : ChunkedReader R → Option Poll → IoResult (Filled (ChunkedReader R))
  terminated c (some poll) = ok (answer c poll)
  terminated c none = as_ref c.buffer >>= λ unread. starts_with_crlf unread >>= λ ends.
      ok (answer c (if ends then ready else failed IoError.invalid_data))

  unfoldable pub read_terminating_crlf : ChunkedReader R → IoResult (Filled (ChunkedReader R))
  read_terminating_crlf c = elim c.status [
    | done ↦ await_crlf 3 c >>= λ a. terminated a.0 a.1
    | _ ↦ ok (answer c (failed IoError.other))
  ]

  -- The loop for the end of a chunk header; `fuel` bounds its reads.
  unfoldable pub find_header : (fuel : ℕ) → ChunkedReader R → IoResult (ChunkedReader R × Found)
  find_header zero c = panic
  find_header (suc fuel) c = as_ref c.buffer >>= λ unread. elim (find_chunk_header_end unread) [
    | ok (some idx) ↦ ok (c, found idx)
    | ok none ↦ read_to_buffer c >>= λ a. elim a.1 [
      | none ↦ find_header fuel a.0
      | some poll ↦ ok (a.0, stopped poll)
    ]
    | err e ↦ ok (c, stopped (failed e))
    | panic ↦ panic
  ]

  -- The chunk of the given size begins behind its header.
  unfoldable pub begin_chunk :
      ChunkedReader R → (idx size : ℕ) → (room : ℕ) → IoResult (Filled (ChunkedReader R))
  begin_chunk c idx size room =
      let c' = record c {
        buffer = progress c.buffer idx;
        current_chunk_size = size;
        current_chunk_count = 0;
      } in
      if ltb 0 size
      then ok (read_data (record c' { status = reading_chunk }) room)
      else read_terminating_crlf (record c' { status = done })

  -- What `read_chunk_header` does when its loop ends.
  unfoldable pub header_found :
      (room : ℕ) → ChunkedReader R → Found → IoResult (Filled (ChunkedReader R))
  header_found room c (stopped poll) = ok (answer c poll)
  header_found room c (found idx) = as_ref c.buffer >>= λ unread.
      or_panic (slice unread 0 idx) >>= λ header. elim (parse_chunk_header header) [
        | ok size ↦ begin_chunk c idx size room
        | err e ↦ ok (answer c (failed e))
        | panic ↦ panic
      ]

  unfoldable pub read_chunk_header :
      (fuel : ℕ) → ChunkedReader R → (room : ℕ) → IoResult (Filled (ChunkedReader R))
  read_chunk_header fuel c room = elim c.status [
    | waiting_for_chunk ↦ find_header fuel c >>= λ a. header_found room a.0 a.1
    | _ ↦ ok (answer c (failed IoError.other))
  ]

  -- Behind a chunk that was read to its end, when the loop for CR NL ends: the next header.
  unfoldable pub chunk_ended :
      (fuel room : ℕ) → ChunkedReader R → Option Poll → IoResult (Filled (ChunkedReader R))
  chunk_ended fuel room c (some poll) = ok (answer c poll)
  chunk_ended fuel room c none = as_ref c.buffer >>= λ unread. starts_with_crlf unread >>= λ ends.
      if ends
      then read_chunk_header fuel
          (record c { buffer = progress c.buffer 2; status = waiting_for_chunk }) room
      else ok (answer c (failed IoError.invalid_data))

  -- What `read_chunk_data` does with the number of bytes that are left of the chunk.
  unfoldable pub chunk_left :
      (fuel room : ℕ) → ChunkedReader R → Option ℕ → IoResult (Filled (ChunkedReader R))
  chunk_left fuel room c none = ok (answer c (failed IoError.other))
  chunk_left fuel room c (some n) =
      if n == 0
      then (await_crlf 3 c >>= λ a. chunk_ended fuel room a.0 a.1)
      else ok (read_data c room)

  unfoldable pub read_chunk_data :
      (fuel : ℕ) → ChunkedReader R → (room : ℕ) → IoResult (Filled (ChunkedReader R))
  read_chunk_data fuel c room = elim c.status [
    | reading_chunk ↦ chunk_left fuel room c (chunk_remaining c)
    | _ ↦ ok (answer c (failed IoError.other))
  ]

  -- A poll, by the status. The loop for a header reads at most one byte more than the buffer holds.
  unfoldable pub poll_by :
      ChunkedReaderStatus
      → (fuel : ℕ) → ChunkedReader R
      → (room : ℕ) → IoResult (Filled (ChunkedReader R))
  poll_by waiting_for_chunk fuel c room = read_chunk_header fuel c room
  poll_by reading_chunk fuel c room = read_chunk_data fuel c room
  poll_by done fuel c room = read_terminating_crlf c

  unfoldable pub poll_read : ChunkedReader R → (room : ℕ) → IoResult (Filled (ChunkedReader R))
  poll_read c room = poll_by c.status (suc (suc (length c.buffer.inner))) c room
