-- ===== src/H2/Frame/Data.antt =====
-- `DataFrame` of src/http2/frame.rs.
use qhttp.Base.{ℕ, ◌≡◌, ◌≢◌, Bool, List, arith, ◌==◌, if◌then◌else◌, ok, refuse_if, ◌>>◌}
use qhttp.H2.Error.{ErrorCode, H2Error, H2Result}
use qhttp.H2.Crates.{FrameType, Crates, flag_end_stream}
use qhttp.H2.Frame.{Frame, expect_type}

-- `content` is the source's `data`, a word that is reserved here.
pub record DataFrame : Type 0 where
  pub stream : ℕ
  pub end_stream : Bool
  pub content : List ℕ

module _ (lib : Crates) where
  unfoldable pub try_from : Frame → H2Result DataFrame
  try_from frame = do
    expect_type frame FrameType.data_frame
    refuse_if (frame.header.stream == 0) (H2Error.connection ErrorCode.protocol_error)
    ok (record {
      stream = frame.header.stream;
      end_stream = lib.flags.contains frame.header.flags flag_end_stream;
      content = frame.payload;
    })

  unfoldable pub into_frame : DataFrame → Frame
  into_frame frame = record {
    header = record {
      type = FrameType.data_frame;
      flags = if frame.end_stream then lib.flags.union 0 flag_end_stream else 0;
      stream = frame.stream;
    };
    payload = frame.content;
  }

  -- A DATA frame of a stream that the server writes is read back as it was.
  pub try_from-into_frame_data : (f : DataFrame) → f.stream ≢ 0 → try_from (into_frame f) ≡ ok f
  unfolding try_from into_frame
  try_from-into_frame_data f h = ground (
    arith,
    lib.flags.contains_lem 0 flag_end_stream,
    lib.flags.union_lem 0 flag_end_stream,
    lib.flags.contains_lem 1 flag_end_stream,
  )
