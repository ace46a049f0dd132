-- ===== src/H2/Connection/Frames.antt =====
-- The arms of `match frame.header.r#type` in the main loop of src/http2/mod.rs, after the frame has
-- been converted to its type.
use qhttp.Base.{
  ℕ, true, not, List, [], ◌∷◌, none, some, ok, err, panic, ◌==◌, if◌then◌else◌, length, refuse_if,
  or_err, ◌>>=◌, ◌>>◌,
}
use qhttp.Base.Int.{ℤ, pos, ltb_ℤ, checked_sub}
use qhttp.H2.Error.{ErrorCode, H2Error, H2Result}
use qhttp.H2.Settings.{SettingsFrame, apply_settings_frame, to_i32}
use qhttp.H2.Frame.{Frame}
use qhttp.H2.Frame.Data.{DataFrame}
use qhttp.H2.Frame.Settings.{default_frame}
use qhttp.H2.Frame.Settings
use qhttp.H2.Frame.Ping
use qhttp.H2.Frame.WindowUpdate.{WindowUpdateFrame}
use qhttp.H2.Frame.Receive
use qhttp.H2.Frame.Wire.{protocol_error, internal_error}
use qhttp.H2.Connection.{
  Config, Connection, ConnResult, Surroundings, StreamHandle, at, write_frame,
}
use qhttp.H2.Connection.Streams.{
  get, modify, update_window, send_data, handle_possible_stream_error,
}
use qhttp.H2.Connection.Requests.{Next, go_on, leave, distribute, change_global_window}
use qhttp.H2.Connection.Opening.{handle_headers}

abbrev flow_control_error : H2Error
flow_control_error = H2Error.connection ErrorCode.flow_control_error

unfoldable pub handle_data : Connection → DataFrame → ConnResult Connection
handle_data c frame = do
  stream ← at c (or_err (get c.streams frame.stream) protocol_error)
  amount ← at c (to_i32 (length frame.content) protocol_error)
  at c (refuse_if (ltb_ℤ c.peer_window (pos amount)) flow_control_error)
  stream' ← at c (send_data stream frame)
  let c' : Connection = record c { streams = modify (λ _. stream') c.streams frame.stream }
  window ← at c' (or_err (checked_sub c.peer_window (pos amount)) internal_error)
  ok (record c' { peer_window = window })

-- `stream.update_window(dif)?` for every stream.
unfoldable pub update_windows : List (ℕ × StreamHandle) → ℤ → H2Result (List (ℕ × StreamHandle))
update_windows [] dif = ok []
update_windows ((id, handle) ∷ rest) dif = do
  handle' ← update_window handle dif
  rest' ← update_windows rest dif
  ok ((id, handle') ∷ rest')

-- The result of `update_window` on one stream, if there is one, and the handles after it.
abbrev pub update_stream : Connection → ℕ → ℤ → Connection × H2Result (Unit {0})
update_stream c id amount = elim (get c.streams id) [
  | none ↦ (c, ok tt)
  | some handle ↦ elim (update_window handle amount) [
    | ok handle' ↦ (record c { streams = modify (λ _. handle') c.streams id }, ok tt)
    | err e ↦ (c, err e)
    | panic ↦ (c, panic)
  ]
]

module _ (config : Config) (out : Surroundings) where
  -- A SETTINGS frame that is no acknowledgement.
  unfoldable pub apply_settings : Connection → SettingsFrame → ConnResult Connection
  apply_settings c frame = do
    (settings, dif) ← at c (apply_settings_frame c.remote_settings frame)
    let c' : Connection = record c { remote_settings = settings }
    streams ← at c' (update_windows c.streams dif)
    write_frame out (record c' { streams = streams })
        (Settings.into_frame out.lib (record default_frame { ack = true }))

  unfoldable pub handle_settings : Connection → SettingsFrame → ConnResult Connection
  handle_settings c frame =
      if frame.ack then ok (record c { settings_ack_timeout = none }) else apply_settings c frame

  unfoldable pub handle_ping : Connection → Ping.PingFrame → ConnResult Connection
  handle_ping c frame =
      if frame.ack
      then (at c (refuse_if (not (frame.opaque == config.ping_payload)) protocol_error)
          >> ok (record c { ping_ack_timeout = none }))
      else write_frame out c (Ping.into_frame out.lib (record frame { ack = true }))

  unfoldable pub handle_window_update : Connection → WindowUpdateFrame → ConnResult Connection
  handle_window_update c frame = do
    amount ← at c (to_i32 frame.window_size_increment protocol_error)
    c' ←
        if frame.stream == 0
        then change_global_window c (pos amount)
        else (let r = update_stream c frame.stream (pos amount) in
            handle_possible_stream_error out r.0 r.1 frame.stream)
    distribute c'

  abbrev pub continue_with : ConnResult Connection → ConnResult Next
  continue_with m = m >>= λ c. ok (go_on c)

  -- PRIORITY and RST_STREAM frames are only logged. `following` is what is read after this frame.
  unfoldable pub handle_received :
      Connection → Receive.Received → List (H2Result Frame) → ConnResult Next
  handle_received c (Receive.data_frame frame) following = continue_with (handle_data c frame)
  handle_received c (Receive.headers frame) following = handle_headers config out c frame following
  handle_received c (Receive.priority frame) following = ok (go_on c)
  handle_received c (Receive.rst_stream frame) following = ok (go_on c)
  handle_received c (Receive.settings frame) following = continue_with (handle_settings c frame)
  handle_received c (Receive.ping frame) following = continue_with (handle_ping c frame)
  handle_received c (Receive.go_away frame) following = ok (leave c)
  handle_received c (Receive.window_update frame) following =
      continue_with (handle_window_update c frame)

  unfoldable pub handle_frame : Connection → Frame → List (H2Result Frame) → ConnResult Next
  handle_frame c frame following =
      at c (Receive.convert out.lib frame.header.type frame) >>= λ received.
      handle_received c received following
