-- ===== src/H2/Frame/Ping.antt =====
-- `PingFrame` of src/http2/frame.rs.
use qhttp.Base.{ℕ, ◌≡◌, Bool, arith, if◌then◌else◌, ok, or_panic, ◌>>=◌, ◌>>◌, IsU64}
use qhttp.Base.U64
use qhttp.H2.Error.{H2Result}
use qhttp.H2.Crates.{FrameType, Crates, flag_ack}
use qhttp.H2.Frame.{Frame, expect_type}

-- `opaque` is the source's `data`, a word that is reserved here.
pub record PingFrame : Type 0 where
  pub ack : Bool
  pub opaque : ℕ

module _ (lib : Crates) where
  unfoldable pub try_from : Frame → H2Result PingFrame
  try_from frame = do
    expect_type frame FrameType.ping
    opaque ← or_panic (U64.from_be_bytes frame.payload)
    ok (record { ack = lib.flags.contains frame.header.flags flag_ack; opaque = opaque })

  unfoldable pub into_frame : PingFrame → Frame
  into_frame frame = record {
    header = record {
      type = FrameType.ping;
      flags = if frame.ack then lib.flags.union 0 flag_ack else 0;
      stream = 0;
    };
    payload = U64.to_be_bytes frame.opaque;
  }

  -- A PING frame that the server writes is read back as it was, if its data fits 64 bits.
  pub try_from-into_frame_ping : (f : PingFrame) → IsU64 f.opaque → try_from (into_frame f) ≡ ok f
  unfolding try_from into_frame
  try_from-into_frame_ping f h = ground (
    arith,
    U64.from_be_bytes-to_be_bytes f.opaque h,
    lib.flags.contains_lem 0 flag_ack,
    lib.flags.union_lem 0 flag_ack,
    lib.flags.contains_lem 1 flag_ack,
  )
