-- ===== src/H2/Frame/Wire/RoundTrip.antt =====
-- A frame is read off the wire as `write_frame` put it there.
use qhttp.Base.{
  ℕ, ◌+◌, ◌*◌, ◌/◌, ◌%◌, ◌^◌, ◌≡◌, ◌≢◌, ◌<◌, refl, List, ◌++◌, Bool, false, arith, length, drop,
  take-length, ok, ◌>>=◌, IsU31,
}
use qhttp.Base.U32
use qhttp.H2.Crates.{FrameType, type_number, Crates, flag_padded, flag_priority}
use qhttp.H2.Frame.{Frame}
use qhttp.H2.Frame.Wire.{
  FrameHeaderRaw, from_slice, strip_padding, header_from_raw, from_header_and_payload, frame_bytes,
}
use qhttp.H2.Frame.Wire.Legal.{IsLegal, check_header_iff}

-- The raw header of a frame.
abbrev pub raw_of : Frame → FrameHeaderRaw
raw_of f = record {
  length = length f.payload;
  type = type_number f.header.type;
  flags = f.header.flags;
  stream = f.header.stream;
}

u24_bytes : (n : ℕ) → n < 2 ^ 24 → n / 2 ^ 16 % 256 * 2 ^ 16 + n / 2 ^ 8 % 256 * 2 ^ 8 + n % 256 ≡ n
u24_bytes n h = omega arith

-- The first nine bytes of a written frame are its raw header, and the payload follows.
pub from_slice-frame_bytes :
    (f : Frame) (rest : List ℕ)
    → length f.payload < 2 ^ 24
    → IsU31 f.header.stream
    → (from_slice (frame_bytes f ++ rest) ≡ ok (raw_of f))
      × (drop 9 (frame_bytes f ++ rest) ≡ f.payload ++ rest)
unfolding from_slice frame_bytes
from_slice-frame_bytes f rest h s = (
  ground (arith, u24_bytes (length f.payload) h, U32.be_bytes_value f.header.stream (omega arith)),
  refl,
)

strip_padding-unpadded :
    (type : FrameType) (payload : List ℕ)
    → type ≢ FrameType.push_promise
    → strip_padding type false payload ≡ ok (0, length payload)
unfolding strip_padding
strip_padding-unpadded FrameType.push_promise payload ne = absurd (ne refl)
strip_padding-unpadded type payload ne = refl

legal-ne-push_promise :
    (type : FrameType) (padded priority : Bool) (len stream : ℕ)
    → IsLegal type padded priority len stream
    → type ≢ FrameType.push_promise
legal-ne-push_promise FrameType.push_promise padded priority len stream h = absurd h
legal-ne-push_promise type padded priority len stream h = λ e. cc

-- A written frame is read back as it was, whatever follows it, if it is legal, is no CONTINUATION,
-- has known flags only, is not padded, its stream fits 31 bits and the length of its payload 24
-- bits.
pub read_frame-frame_bytes :
    (lib : Crates) (f : Frame) (rest : List ℕ)
    → length f.payload < 2 ^ 24
    → IsU31 f.header.stream
    → lib.flags.from_bits_truncate f.header.flags ≡ f.header.flags
    → lib.flags.contains f.header.flags flag_padded ≡ false
    → f.header.type ≢ FrameType.continuation
    → IsLegal f.header.type false
        (lib.flags.contains f.header.flags flag_priority)
        (length f.payload)
        f.header.stream
    → (from_slice (frame_bytes f ++ rest) >>= λ raw. from_header_and_payload lib raw f.payload)
      ≡ ok f
unfolding from_header_and_payload header_from_raw
read_frame-frame_bytes lib f rest len s known unpadded ne legal =
    rw
      (
        (from_slice-frame_bytes f rest len s).0,
        lib.frame_type.from-number f.header.type,
        known,
        unpadded,
        (check_header_iff _ _ _ _ _ ne).1 legal,
      )
      (rw
        (
          unpadded,
          strip_padding-unpadded f.header.type f.payload (legal-ne-push_promise _ _ _ _ _ legal),
        )
        (ground (arith, take-length f.payload)))
