-- ===== src/Request.antt =====
-- request.rs: `LimitReader`, which reads a body of known length. The reader below it is a parameter:
-- `poll_read` of it is given the room of the buffer, and answers with the bytes that it puts there,
-- however its poll ends. A `ReadBuf` is its room; the bytes put in a poll are what it is filled with.
pub mod Limit
pub mod Chunked
pub mod Headers
mod Tests
use qhttp.Base.{ℕ, ◌-◌, List, [], ◌++◌, ltb, leb, ◌==◌, if◌then◌else◌, length, IoError, add_usize}

-- `Poll<std::io::Result<()>>`
pub data Poll : Type 0 where
  ready : Poll
  failed : IoError → Poll
  pending : Poll

-- What a poll leaves of a reader, the bytes it put into the buffer, and its answer.
pub record Filled (R : Type 0) : Type 0 where
  pub reader : R
  pub put : List ℕ
  pub poll : Poll

pub record LimitReader (R : Type 0) : Type 0 where
  pub reader : R
  pub max : ℕ
  pub current : ℕ

unfoldable pub new : {R : Type 0} → R → ℕ → LimitReader R
new reader max = record { reader = reader; max = max; current = 0 }

module _ {R : Type 0} (poll_below : R → (room : ℕ) → Filled R) where
  -- The reader below fills `buf` itself: the count grows by what it put, if that is anything.
  unfoldable pub read_all : LimitReader R → (room : ℕ) → Filled (LimitReader R)
  read_all l room =
      let filled = poll_below l.reader room in
      let delta = length filled.put in
      record {
        reader = record {
          reader = filled.reader;
          max = l.max;
          current = if ltb 0 delta then add_usize l.current delta else l.current;
        };
        put = filled.put;
        poll = filled.poll;
      }

  -- The reader below fills `small_buf`, the next `remaining` bytes of `buf`.
  unfoldable pub read_small : LimitReader R → (remaining : ℕ) → Filled (LimitReader R)
  read_small l remaining =
      let filled = poll_below l.reader remaining in
      record {
        reader = record {
          reader = filled.reader;
          max = l.max;
          current = add_usize l.current (length filled.put);
        };
        put = filled.put;
        poll = filled.poll;
      }

  unfoldable pub poll_read : LimitReader R → (room : ℕ) → Filled (LimitReader R)
  poll_read l room =
      let remaining = l.max - l.current in
      if ltb l.max l.current
      then record { reader = l; put = []; poll = Poll.failed IoError.other }
      else if remaining == 0
      then record { reader = l; put = []; poll = Poll.ready }
      else if leb room remaining
      then read_all l room
      else read_small l remaining
