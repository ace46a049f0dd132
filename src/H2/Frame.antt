-- ===== src/H2/Frame.antt =====
-- src/http2/frame.rs: the untyped frame. Its children model the typed frames, each with its two
-- conversions, and the reading of a frame off the wire.
pub mod Priority
pub mod Data
pub mod Headers
pub mod RstStream
pub mod Settings
pub mod Ping
pub mod GoAway
pub mod WindowUpdate
pub mod Continuation
pub mod Wire
pub mod Receive
use qhttp.Base.{ℕ, List, not, refuse_if}
use qhttp.H2.Error.{ErrorCode, H2Error, H2Result}
use qhttp.H2.Crates.{FrameType, same_type}

pub record FrameHeader : Type 0 where
  pub type : FrameType
  pub flags : ℕ
  pub stream : ℕ

pub record Frame : Type 0 where
  pub header : FrameHeader
  pub payload : List ℕ

-- The first test of every conversion: `if frame.header.r#type != … { return Err(…) }`.
abbrev pub expect_type : Frame → FrameType → H2Result (Unit {0})
expect_type frame type =
    refuse_if (not (same_type frame.header.type type)) (H2Error.connection ErrorCode.internal_error)
