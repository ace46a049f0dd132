-- ===== src/H2/Frame/Continuation.antt =====
-- `ContinuationFrame` of src/http2/frame.rs.
use qhttp.Base.{ℕ, ◌≡◌, Bool, List, arith, if◌then◌else◌, ok, ◌>>◌}
use qhttp.H2.Error.{H2Result}
use qhttp.H2.Crates.{FrameType, Crates, flag_end_headers}
use qhttp.H2.Frame.{Frame, expect_type}

-- `fragment` is the source's `data`, a word that is reserved here.
pub record ContinuationFrame : Type 0 where
  pub stream : ℕ
  pub end_headers : Bool
  pub fragment : List ℕ

module _ (lib : Crates) where
  unfoldable pub try_from : Frame → H2Result ContinuationFrame
  try_from frame = do
    expect_type frame FrameType.continuation
    ok (record {
      stream = frame.header.stream;
      end_headers = lib.flags.contains frame.header.flags flag_end_headers;
      fragment = frame.payload;
    })

  unfoldable pub into_frame : ContinuationFrame → Frame
  into_frame frame = record {
    header = record {
      type = FrameType.continuation;
      flags = if frame.end_headers then lib.flags.union 0 flag_end_headers else 0;
      stream = frame.stream;
    };
    payload = frame.fragment;
  }

  -- The two conversions of a CONTINUATION frame undo one another.
  pub try_from-into_frame_continuation : (f : ContinuationFrame) → try_from (into_frame f) ≡ ok f
  unfolding try_from into_frame
  try_from-into_frame_continuation f = ground (
    arith,
    lib.flags.contains_lem 0 flag_end_headers,
    lib.flags.union_lem 0 flag_end_headers,
    lib.flags.contains_lem flag_end_headers flag_end_headers,
  )
