-- ===== src/H2/Frame/Wire.antt =====
-- The frame on the wire: `FrameHeaderRaw`, `FrameHeader` and `Frame` of src/http2/frame.rs, and the
-- bytes that `write_frame` of src/http2/mod.rs writes.
pub mod Legal
pub mod RoundTrip
use qhttp.Base.{
  ℕ, ◌+◌, ◌-◌, ◌*◌, ◌/◌, ◌%◌, ◌^◌, Bool, true, false, not, ◌&&◌, List, [], ◌∷◌, ◌++◌, Option, none,
  some, ◌==◌, ltb, leb, if◌then◌else◌, length, get_elem?, slice, ok, err, or_panic, or_err,
  refuse_if, ◌>>=◌, ◌>>◌,
}
use qhttp.Base.U32
use qhttp.H2.Error.{ErrorCode, H2Error, H2Result}
use qhttp.H2.Crates.{FrameType, type_number, Crates, flag_padded, flag_priority}
use qhttp.H2.Frame.{FrameHeader, Frame}

pub record FrameHeaderRaw : Type 0 where
  pub length : ℕ
  pub type : ℕ
  pub flags : ℕ
  pub stream : ℕ

abbrev pub stream_id_limit : ℕ
stream_id_limit = 2 ^ 31

abbrev pub protocol_error : H2Error
protocol_error = H2Error.connection ErrorCode.protocol_error

abbrev pub frame_size_error : H2Error
frame_size_error = H2Error.connection ErrorCode.frame_size_error

abbrev pub internal_error : H2Error
internal_error = H2Error.connection ErrorCode.internal_error

-- `FrameHeaderRaw::from_slice`
unfoldable pub from_slice : List ℕ → H2Result FrameHeaderRaw
from_slice buf = do
  refuse_if (ltb (length buf) 9) protocol_error
  b₀ ← or_panic (get_elem? buf 0)
  b₁ ← or_panic (get_elem? buf 1)
  b₂ ← or_panic (get_elem? buf 2)
  type ← or_panic (get_elem? buf 3)
  flags ← or_panic (get_elem? buf 4)
  stream_bytes ← or_panic (slice buf 5 9)
  stream ← or_err (U32.from_be_bytes stream_bytes) internal_error
  ok (record {
    length = b₀ * 2 ^ 16 + b₁ * 2 ^ 8 + b₂;
    type = type;
    flags = flags;
    stream = if leb stream_id_limit stream then stream - stream_id_limit else stream;
  })

-- The `match r#type` of the header's conversion: the checks that need no payload.
unfoldable pub check_header : FrameType → Bool → Bool → ℕ → ℕ → H2Result (Unit {0})
check_header FrameType.data_frame padded priority len stream = do
  refuse_if (stream == 0) protocol_error
  refuse_if (padded && ltb len 1) protocol_error
check_header FrameType.headers padded priority len stream = do
  refuse_if (stream == 0) protocol_error
  refuse_if (padded && ltb len 1) protocol_error
  let min = if padded then 1 else 0
  refuse_if (ltb len (if priority then min + 5 else min)) protocol_error
check_header FrameType.priority padded priority len stream = do
  refuse_if (stream == 0) protocol_error
  refuse_if (not (len == 5)) (H2Error.stream ErrorCode.frame_size_error)
check_header FrameType.rst_stream padded priority len stream = do
  refuse_if (stream == 0) protocol_error
  refuse_if (not (len == 4)) frame_size_error
check_header FrameType.settings padded priority len stream = do
  refuse_if (not (stream == 0)) protocol_error
  refuse_if (not (len % 6 == 0)) frame_size_error
check_header FrameType.push_promise padded priority len stream = err protocol_error
check_header FrameType.ping padded priority len stream = do
  refuse_if (not (stream == 0)) protocol_error
  refuse_if (not (len == 8)) frame_size_error
check_header FrameType.go_away padded priority len stream = do
  refuse_if (not (stream == 0)) protocol_error
  refuse_if (ltb len 8) frame_size_error
check_header FrameType.window_update padded priority len stream =
    refuse_if (not (len == 4)) frame_size_error
check_header FrameType.continuation padded priority len stream =
    refuse_if (not (stream == 0)) protocol_error

-- The `match header.r#type` of `Frame::from_header_and_payload`: where the payload proper begins
-- and ends. `padding < len` holds where it is taken off, so `checked_sub` cannot fail.
unfoldable pub strip_padding : FrameType → Bool → List ℕ → H2Result (ℕ × ℕ)
strip_padding FrameType.push_promise padded payload = err protocol_error
strip_padding FrameType.data_frame true payload = do
  padding ← or_err (get_elem? payload 0) internal_error
  refuse_if (leb (length payload) padding) protocol_error
  ok (1, length payload - padding)
strip_padding FrameType.headers true payload = do
  padding ← or_err (get_elem? payload 0) internal_error
  refuse_if (leb (length payload) padding) protocol_error
  ok (1, length payload - padding)
strip_padding _ padded payload = ok (0, length payload)

module _ (lib : Crates) where
  -- `TryFrom<FrameHeaderRaw> for FrameHeader`
  unfoldable pub header_from_raw : FrameHeaderRaw → H2Result FrameHeader
  header_from_raw raw = do
    type ← or_err (lib.frame_type.from raw.type) internal_error
    let flags = lib.flags.from_bits_truncate raw.flags
    check_header type (lib.flags.contains flags flag_padded)
        (lib.flags.contains flags flag_priority) raw.length raw.stream
    ok (record { type = type; flags = flags; stream = raw.stream })

  unfoldable pub from_header_and_payload : FrameHeaderRaw → List ℕ → H2Result Frame
  from_header_and_payload raw payload = do
    header ← header_from_raw raw
    (begin, end) ← strip_padding header.type (lib.flags.contains header.flags flag_padded) payload
    refuse_if (ltb end begin) protocol_error
    content ← or_panic (slice payload begin end)
    ok (record { header = header; payload = content })

-- The bytes that `write_frame` writes: the length as three bytes, type, flags, stream and payload.
unfoldable pub frame_bytes : Frame → List ℕ
frame_bytes frame =
    let len = length frame.payload in
    (len / 2 ^ 16 % 256)
    ∷ (len / 2 ^ 8 % 256)
    ∷ (len % 256)
    ∷ type_number frame.header.type
    ∷ frame.header.flags
    ∷ (U32.to_be_bytes frame.header.stream ++ frame.payload)
