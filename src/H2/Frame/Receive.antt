-- ===== src/H2/Frame/Receive.antt =====
-- The `match frame.header.r#type` of `Connection::main_loop` in src/http2/mod.rs: the typed frame
-- that a received frame is converted to before it is handled.
pub mod Conversions
pub mod Safety
pub mod Padded
use qhttp.Base.{ℕ, List, Result, ok, err, length, ◌>>=◌}
use qhttp.H2.Error.{H2Result}
use qhttp.H2.Crates.{FrameType, Crates}
use qhttp.H2.Settings.{SettingsFrame}
use qhttp.H2.Frame.{Frame}
use qhttp.H2.Frame.Data
use qhttp.H2.Frame.Headers
use qhttp.H2.Frame.Priority
use qhttp.H2.Frame.RstStream
use qhttp.H2.Frame.Settings
use qhttp.H2.Frame.Ping
use qhttp.H2.Frame.GoAway
use qhttp.H2.Frame.WindowUpdate
use qhttp.H2.Frame.Wire.{FrameHeaderRaw, from_header_and_payload, protocol_error}

pub data Received : Type 0 where
  data_frame : Data.DataFrame → Received
  headers : Headers.HeadersFrame → Received
  priority : Priority.PriorityFrame → Received
  rst_stream : RstStream.RstStreamFrame → Received
  settings : SettingsFrame → Received
  ping : Ping.PingFrame → Received
  go_away : GoAway.GoAwayFrame → Received
  window_update : WindowUpdate.WindowUpdateFrame → Received

abbrev pub map_ok : {A : Type 0} → (A → Received) → H2Result A → H2Result Received
map_ok f m = m >>= λ a. ok (f a)

module _ (lib : Crates) where
  unfoldable pub convert : FrameType → Frame → H2Result Received
  convert FrameType.data_frame frame = map_ok data_frame (Data.try_from lib frame)
  convert FrameType.headers frame = map_ok headers (Headers.try_from lib frame)
  convert FrameType.priority frame = map_ok priority (Priority.try_from frame)
  convert FrameType.rst_stream frame = map_ok rst_stream (RstStream.try_from lib frame)
  convert FrameType.settings frame = map_ok settings (Settings.try_from lib frame)
  convert FrameType.push_promise frame = err protocol_error
  convert FrameType.ping frame = map_ok ping (Ping.try_from lib frame)
  convert FrameType.go_away frame = map_ok go_away (GoAway.try_from lib frame)
  convert FrameType.window_update frame = map_ok window_update (WindowUpdate.try_from frame)
  convert FrameType.continuation frame = err protocol_error

  -- A raw header and the payload of its length, as far as the handling of the frame.
  unfoldable pub receive : FrameHeaderRaw → List ℕ → H2Result Received
  receive raw payload = do
    frame ← from_header_and_payload lib raw payload
    convert frame.header.type frame
