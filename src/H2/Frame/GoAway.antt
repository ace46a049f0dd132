-- ===== src/H2/Frame/GoAway.antt =====
-- `GoAwayFrame` of src/http2/frame.rs.
use qhttp.Base.{
  ℕ, ◌≡◌, Option, none, some, List, ◌++◌, arith, slice, split_off, ok, or_panic, ◌>>=◌, ◌>>◌, IsU31,
}
use qhttp.Base.U32
use qhttp.H2.Error.{ErrorCode, H2Result}
use qhttp.H2.Crates.{FrameType, Crates}
use qhttp.H2.Frame.{Frame, expect_type}
use qhttp.H2.Frame.RstStream.{wire_code, wire_code-IsU32, from-wire_code}
use qhttp.H2.Frame.WindowUpdate.{drop_reserved_bit}

pub record GoAwayFrame : Type 0 where
  pub last_stream_id : ℕ
  pub error_code : Option ErrorCode
  pub debug_data : List ℕ

unfoldable pub into_frame : GoAwayFrame → Frame
into_frame frame = record {
  header = record { type = FrameType.go_away; flags = 0; stream = 0 };
  payload =
      U32.to_be_bytes frame.last_stream_id
      ++ (U32.to_be_bytes (wire_code frame.error_code) ++ frame.debug_data);
}

module _ (lib : Crates) where
  unfoldable pub try_from : Frame → H2Result GoAwayFrame
  try_from frame = do
    expect_type frame FrameType.go_away
    id_bytes ← or_panic (slice frame.payload 0 4)
    last_stream_id ← or_panic (U32.from_be_bytes id_bytes)
    code_bytes ← or_panic (slice frame.payload 4 8)
    code ← or_panic (U32.from_be_bytes code_bytes)
    debug_data ← or_panic (split_off frame.payload 8)
    ok (record {
      last_stream_id = drop_reserved_bit last_stream_id;
      error_code = lib.error_code.from code;
      debug_data = debug_data;
    })

  -- A GOAWAY frame that the server writes, whose last stream fits 31 bits, is read back with its
  -- stream, its code and its debug data, where a missing code has become an internal error.
  pub try_from-into_frame_go_away :
      (f : GoAwayFrame)
      → IsU31 f.last_stream_id
      → try_from (into_frame f)
        ≡ ok (record f {
          error_code = some (elim f.error_code [ none ↦ ErrorCode.internal_error | some c ↦ c ]);
        })
  unfolding try_from into_frame
  try_from-into_frame_go_away f h = ground (
    arith,
    U32.be_bytes_value f.last_stream_id (omega arith),
    U32.be_bytes_value (wire_code f.error_code) (wire_code-IsU32 f.error_code),
    from-wire_code lib f.error_code,
  )
