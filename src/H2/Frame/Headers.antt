-- ===== src/H2/Frame/Headers.antt =====
-- `HeadersFrame` of src/http2/frame.rs.
use qhttp.Base.{
  ℕ, ◌≡◌, ◌≢◌, Bool, true, false, List, ◌++◌, Option, none, some, arith, ◌==◌, if◌then◌else◌, slice,
  split_off, ok, or_panic, refuse_if, ◌>>=◌, ◌>>◌,
}
use qhttp.H2.Error.{ErrorCode, H2Error, H2Result}
use qhttp.H2.Crates.{
  FrameType, Crates, flag_end_stream, flag_end_headers, flag_padded, flag_priority,
}
use qhttp.H2.Frame.{Frame, expect_type}
use qhttp.H2.Frame.Priority.{Priority, from_slice, into_bytes}

-- `fragment` is the source's `data`, a word that is reserved here.
pub record HeadersFrame : Type 0 where
  pub stream : ℕ
  pub end_stream : Bool
  pub end_headers : Bool
  pub priority : Option Priority
  pub fragment : List ℕ

-- The priority at `begin..end` of the payload, and the payload from `end` on.
abbrev pub split_priority : List ℕ → ℕ → ℕ → H2Result (Option Priority × List ℕ)
split_priority payload begin end = do
  bytes ← or_panic (slice payload begin end)
  priority ← from_slice bytes
  rest ← or_panic (split_off payload end)
  ok (some priority, rest)

module _ (lib : Crates) where
  unfoldable pub try_from : Frame → H2Result HeadersFrame
  try_from frame = do
    expect_type frame FrameType.headers
    refuse_if (frame.header.stream == 0) (H2Error.connection ErrorCode.protocol_error)
    let padded = lib.flags.contains frame.header.flags flag_padded
    (priority, payload) ←
        if lib.flags.contains frame.header.flags flag_priority
        then (if padded
            then split_priority frame.payload 8 13
            else split_priority frame.payload 0 5)
        else ok (none, frame.payload)
    ok (record {
      stream = frame.header.stream;
      end_stream = lib.flags.contains frame.header.flags flag_end_stream;
      end_headers = lib.flags.contains frame.header.flags flag_end_headers;
      priority = priority;
      fragment = payload;
    })

  abbrev pub end_flags : Bool → Bool → ℕ
  end_flags end_stream end_headers =
      let flags = if end_stream then lib.flags.union 0 flag_end_stream else 0 in
      if end_headers then lib.flags.union flags flag_end_headers else flags

  unfoldable pub into_frame : HeadersFrame → Frame
  into_frame frame = record {
    header = record {
      type = FrameType.headers;
      flags = end_flags frame.end_stream frame.end_headers;
      stream = frame.stream;
    };
    payload = elim frame.priority [
      | none ↦ frame.fragment
      | some priority ↦ into_bytes priority ++ frame.fragment
    ];
  }

  contains-end_stream :
      (end_stream end_headers : Bool)
      → lib.flags.contains (end_flags end_stream end_headers) flag_end_stream ≡ end_stream
  contains-end_stream false false = lib.flags.contains_lem 0 flag_end_stream
  contains-end_stream false true = rw (lib.flags.union_lem 0 4, lib.flags.contains_lem 4 1)
  contains-end_stream true false = rw (lib.flags.union_lem 0 1, lib.flags.contains_lem 1 1)
  contains-end_stream true true =
      rw (lib.flags.union_lem 0 1, lib.flags.union_lem 1 4, lib.flags.contains_lem 5 1)

  contains-end_headers :
      (end_stream end_headers : Bool)
      → lib.flags.contains (end_flags end_stream end_headers) flag_end_headers ≡ end_headers
  contains-end_headers false false = lib.flags.contains_lem 0 4
  contains-end_headers false true = rw (lib.flags.union_lem 0 4, lib.flags.contains_lem 4 4)
  contains-end_headers true false = rw (lib.flags.union_lem 0 1, lib.flags.contains_lem 1 4)
  contains-end_headers true true =
      rw (lib.flags.union_lem 0 1, lib.flags.union_lem 1 4, lib.flags.contains_lem 5 4)

  contains-priority :
      (end_stream end_headers : Bool)
      → lib.flags.contains (end_flags end_stream end_headers) flag_priority ≡ false
  contains-priority false false = lib.flags.contains_lem 0 32
  contains-priority false true = rw (lib.flags.union_lem 0 4, lib.flags.contains_lem 4 32)
  contains-priority true false = rw (lib.flags.union_lem 0 1, lib.flags.contains_lem 1 32)
  contains-priority true true =
      rw (lib.flags.union_lem 0 1, lib.flags.union_lem 1 4, lib.flags.contains_lem 5 32)

  -- A HEADERS frame of a stream that the server writes is read back without its priority:
  -- `into_frame` never sets the PRIORITY flag, so the bytes of a priority are read as the start of
  -- the fragment. Stream, flags and a fragment with no priority in front of it come back as they
  -- were.
  pub try_from-into_frame_headers :
      (f : HeadersFrame)
      → f.stream ≢ 0
      → try_from (into_frame f)
        ≡ ok (record f {
          priority = none;
          fragment = elim f.priority [ none ↦ f.fragment | some p ↦ into_bytes p ++ f.fragment ];
        })
  unfolding try_from into_frame
  try_from-into_frame_headers f h = ground (
    arith,
    contains-end_stream f.end_stream f.end_headers,
    contains-end_headers f.end_stream f.end_headers,
    contains-priority f.end_stream f.end_headers,
  )
