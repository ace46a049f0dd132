-- ===== src/H2/Frame/RstStream.antt =====
-- `RstStreamFrame` of src/http2/frame.rs.
use qhttp.Base.{ℕ, ◌≡◌, Option, none, some, arith, ok, or_panic, ◌>>=◌, ◌>>◌, IsU32}
use qhttp.Base.U32
use qhttp.H2.Error.{ErrorCode, code_number, H2Result}
use qhttp.H2.Crates.{FrameType, Crates}
use qhttp.H2.Frame.{Frame, expect_type}

pub record RstStreamFrame : Type 0 where
  pub stream : ℕ
  pub error_code : Option ErrorCode

-- `match error_code { Some(code) => code as u32, None => ErrorCode::InternalError as u32 }`
abbrev pub wire_code : Option ErrorCode → ℕ
wire_code none = code_number ErrorCode.internal_error
wire_code (some code) = code_number code

pub wire_code-IsU32 : (code : Option ErrorCode) → IsU32 (wire_code code)
wire_code-IsU32 none = omega arith
wire_code-IsU32 (some c) = ground arith

unfoldable pub into_frame : RstStreamFrame → Frame
into_frame frame = record {
  header = record { type = FrameType.rst_stream; flags = 0; stream = frame.stream };
  payload = U32.to_be_bytes (wire_code frame.error_code);
}

module _ (lib : Crates) where
  unfoldable pub try_from : Frame → H2Result RstStreamFrame
  try_from frame = do
    expect_type frame FrameType.rst_stream
    code ← or_panic (U32.from_be_bytes frame.payload)
    ok (record { stream = frame.header.stream; error_code = lib.error_code.from code })

  -- The code on the wire is read back; no code is sent as an internal error.
  pub from-wire_code :
      (code : Option ErrorCode)
      → lib.error_code.from (wire_code code)
        ≡ some (elim code [ none ↦ ErrorCode.internal_error | some c ↦ c ])
  from-wire_code none = lib.error_code.from-number ErrorCode.internal_error
  from-wire_code (some c) = lib.error_code.from-number c

  -- A RST_STREAM frame that the server writes is read back with its stream and its code, where a
  -- missing code has become an internal error.
  pub try_from-into_frame_rst_stream :
      (f : RstStreamFrame)
      → try_from (into_frame f)
        ≡ ok (record f {
          error_code = some (elim f.error_code [ none ↦ ErrorCode.internal_error | some c ↦ c ]);
        })
  unfolding try_from into_frame
  try_from-into_frame_rst_stream f = ground (
    arith,
    U32.from_be_bytes-to_be_bytes (wire_code f.error_code) (wire_code-IsU32 f.error_code),
    from-wire_code f.error_code,
  )
