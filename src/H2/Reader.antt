-- ===== src/H2/Reader.antt =====
-- `read_preface` and `read_next_frame` of src/http2/mod.rs: frames are taken from the buffer, which
-- is filled from the reader. What arrives at the reader, which tokio provides, is a list of pieces:
-- a read delivers of the first piece what its window holds, and nothing after the last.
pub mod Fill
pub mod Fragments
mod Tests
use qhttp.Base.{
  same_bytes, ℕ, zero, suc, false, true, ◌≡◌, Bool, List, [], ◌∷◌, ◌++◌, ok, err, panic, ◌==◌, ltb,
  leb, not, if◌then◌else◌, length, take, drop, slice, IoResult, IoError, or_panic, refuse_if, ◌>>=◌,
  ◌>>◌,
}
use qhttp.Buffer.{
  Buffer, as_ref, progress, rotate_buffer, available_for_read, available_for_write,
  read_from_reader,
}
use qhttp.H2.Error.{H2Error, H2Result}
use qhttp.H2.Crates.{Crates}
use qhttp.H2.Frame.{Frame}
use qhttp.H2.Frame.Wire.{FrameHeaderRaw, from_slice, from_header_and_payload, protocol_error}

-- A piece of bytes that arrives, or an error of the reader.
pub data Arrival : Type 0 where
  bytes : List ℕ → Arrival
  failed : IoError → Arrival

pub record Connected : Type 0 where
  pub buffer : Buffer
  pub arrivals : List Arrival

abbrev pub deliver : List Arrival → ℕ → IoResult (List ℕ)
deliver [] room = ok []
deliver (bytes piece ∷ rest) room = ok (take room piece)
deliver (failed e ∷ rest) room = err e

-- What is still to arrive after a read of `n` bytes.
abbrev pub arrive : List Arrival → ℕ → List Arrival
arrive [] n = []
arrive (bytes piece ∷ rest) n = if leb (length piece) n then rest else bytes (drop n piece) ∷ rest
arrive (failed e ∷ rest) n = rest

-- A method of the buffer, whose errors become a PROTOCOL_ERROR.
abbrev pub map_io : {A : Type 0} → IoResult A → H2Result A
map_io (ok a) = ok a
map_io (err e) = err protocol_error
map_io panic = panic

-- One read; nothing read is the end of the connection.
unfoldable pub read_some : Connected → H2Result Connected
read_some c = do
  (buffer, n) ← map_io (read_from_reader c.buffer (deliver c.arrivals))
  refuse_if (n == 0) protocol_error
  ok (record { buffer = buffer; arrivals = arrive c.arrivals n })

-- Reading until `size` bytes are there. `fuel` bounds the reads. The loop for a payload also stops
-- when the buffer is full; where `check_full` is false, the read of a full buffer delivers nothing.
unfoldable pub fill : (fuel : ℕ) → (check_full : Bool) → ℕ → Connected → H2Result Connected
fill zero check_full size c = panic
fill (suc fuel) check_full size c =
    if leb size (available_for_read c.buffer)
    then ok c
    else (refuse_if (if check_full then available_for_write c.buffer == 0 else check_full)
          protocol_error
        >> read_some c
        >>= λ c'. fill fuel check_full size c')

abbrev pub header_size : ℕ
header_size = 9

-- `self.buffer.progress(n); self.buffer.rotate_buffer();`
unfoldable pub consume : Connected → ℕ → H2Result Connected
consume c n =
    map_io (rotate_buffer (progress c.buffer n)) >>= λ buffer. ok (record c { buffer = buffer })

-- The first part of `read_next_frame`: the raw header.
unfoldable pub read_header : Connected → H2Result (FrameHeaderRaw × Connected)
read_header c = do
  c₁ ← fill (suc header_size) false header_size c
  unread ← map_io (as_ref c₁.buffer)
  header ← from_slice unread
  c₂ ← consume c₁ header_size
  ok (header, c₂)

module _ (lib : Crates) where
  -- The second part: the payload, and the frame.
  unfoldable pub read_payload : FrameHeaderRaw → Connected → H2Result (Frame × Connected)
  read_payload header c = do
    c₁ ← fill (suc header.length) true header.length c
    unread ← map_io (as_ref c₁.buffer)
    payload ← or_panic (slice unread 0 header.length)
    frame ← from_header_and_payload lib header payload
    c₂ ← consume c₁ header.length
    ok (frame, c₂)

  unfoldable pub read_next_frame : Connected → H2Result (Frame × Connected)
  read_next_frame c = read_header c >>= λ r. read_payload r.0 r.1

-- `read_preface`, with its errors as the PROTOCOL_ERROR of `map_io`: `handle_inner` only logs them.
unfoldable pub read_preface : (preface : List ℕ) → Connected → H2Result Connected
read_preface preface c = do
  let size = length preface
  c₁ ← fill (suc size) false size c
  unread ← map_io (as_ref c₁.buffer)
  found ← or_panic (slice unread 0 size)
  refuse_if (not (same_bytes found preface)) protocol_error
  ok (record c₁ { buffer = progress c₁.buffer size })
