-- ===== src/H2/Frame/WindowUpdate.antt =====
-- `WindowUpdateFrame` of src/http2/frame.rs.
use qhttp.Base.{
  ℕ, ◌-◌, ◌^◌, ◌≡◌, arith, leb, if◌then◌else◌, slice, ok, or_panic, ◌>>=◌, ◌>>◌, IsU31,
}
use qhttp.Base.U32
use qhttp.H2.Error.{H2Result}
use qhttp.H2.Crates.{FrameType}
use qhttp.H2.Frame.{Frame, expect_type}

pub record WindowUpdateFrame : Type 0 where
  pub stream : ℕ
  pub window_size_increment : ℕ

-- `if n >= (1<<31) { n - (1<<31) } else { n }`: the reserved top bit is dropped.
abbrev pub drop_reserved_bit : ℕ → ℕ
drop_reserved_bit n = if leb (2 ^ 31) n then n - 2 ^ 31 else n

unfoldable pub try_from : Frame → H2Result WindowUpdateFrame
try_from frame = do
  expect_type frame FrameType.window_update
  bytes ← or_panic (slice frame.payload 0 4)
  number ← or_panic (U32.from_be_bytes bytes)
  ok (record { stream = frame.header.stream; window_size_increment = drop_reserved_bit number })

unfoldable pub into_frame : WindowUpdateFrame → Frame
into_frame frame = record {
  header = record { type = FrameType.window_update; flags = 0; stream = frame.stream };
  payload = U32.to_be_bytes frame.window_size_increment;
}

-- A WINDOW_UPDATE frame that the server writes is read back as it was.
pub try_from-into_frame_window_update :
    (f : WindowUpdateFrame) → IsU31 f.window_size_increment → try_from (into_frame f) ≡ ok f
unfolding try_from into_frame
try_from-into_frame_window_update f h =
    ground (arith, U32.be_bytes_value f.window_size_increment (omega arith))
