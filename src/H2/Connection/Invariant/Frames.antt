-- ===== src/H2/Connection/Invariant/Frames.antt =====
-- Handling a frame keeps the invariant.
use qhttp.Base.{ℕ, List, [], ◌∷◌, ◌++◌, ◌≡◌, ok, arith, >>=-ok, none, or_err}
use qhttp.Base.Int.{ℤ, checked_sub, ◌-ℤ◌}
use qhttp.H2.Error.{H2Result}
use qhttp.H2.Settings.{Settings, SettingsFrame, apply_settings_frame}
use qhttp.H2.Settings.Apply.{IsValid, apply_settings_frame-IsValid}
use qhttp.H2.Frame.{Frame}
use qhttp.H2.Frame.Data.{DataFrame}
use qhttp.H2.Frame.Ping.{PingFrame}
use qhttp.H2.Frame.WindowUpdate.{WindowUpdateFrame}
use qhttp.H2.Frame.Receive
use qhttp.H2.Connection.{
  Config, StreamHandle, StreamReq, Connection, Surroundings, at, at-ok, write_frame,
}
use qhttp.H2.Connection.Streams.{get, update_window, send_data}
use qhttp.H2.Connection.Requests.{go_on}
use qhttp.H2.Connection.Frames.{
  handle_data, update_windows, update_stream, apply_settings, handle_settings, handle_ping,
  handle_window_update, handle_received, handle_frame,
}
use qhttp.H2.Connection.Invariant.{
  HaveIds, IsSound, modify-ids, write_frame-IsSound, handle_possible_stream_error-IsSound,
}
use qhttp.H2.Connection.Invariant.Requests.{distribute-IsSound, change_global_window-IsSound}
use qhttp.H2.Connection.Invariant.Opening.{handle_headers-IsSound}

handle_data-IsSound :
    (c : Connection) (f : DataFrame) {c' : Connection}
    → handle_data c f ≡ ok c'
    → IsSound c
    → IsSound c'
unfolding handle_data IsSound checked_sub ◌-ℤ◌ send_data
handle_data-IsSound c f h s =
    let (x, p, q) = >>=-ok (at c (or_err (get c.streams f.stream) _)) _ h in
    let x' : StreamHandle = record x { sent = x.sent ++ (StreamReq.request_body f ∷ []) } in
    ground (arith, modify-ids c.biggest_open_stream (λ _. x') c.streams f.stream s.ids)

update_windows-ids :
    (b : ℕ) (streams : List (ℕ × StreamHandle)) (dif : ℤ) {streams' : List (ℕ × StreamHandle)}
    → update_windows streams dif ≡ ok streams'
    → HaveIds b streams
    → HaveIds b streams'
unfolding update_windows HaveIds
update_windows-ids b [] dif h s = ground arith
update_windows-ids b ((id, x) ∷ streams) dif h s =
    let (x', p, q) = >>=-ok (update_window x dif) _ h in
    let (rest, p', q') = >>=-ok (update_windows streams dif) _ q in
    ground (arith, update_windows-ids b streams dif p' s.1)

update_stream-IsSound :
    (c : Connection) (id : ℕ) (a : ℤ) → IsSound c → IsSound (update_stream c id a).0
unfolding IsSound
update_stream-IsSound c id a s = grind (arith, modify-ids)

module _ (config : Config) (out : Surroundings) where
  settle-IsSound :
      (c : Connection) (settings : Settings) (streams : List (ℕ × StreamHandle))
      → IsValid settings
      → HaveIds c.biggest_open_stream streams
      → IsSound c
      → IsSound (record c { remote_settings = settings; streams = streams })
  unfolding IsSound
  settle-IsSound c settings streams v h s = ground arith

  settings-IsValid : (c : Connection) → IsSound c → IsValid c.remote_settings
  unfolding IsSound
  settings-IsValid c s = s.settings

  pub IsSound-ids : (c : Connection) → IsSound c → HaveIds c.biggest_open_stream c.streams
  unfolding IsSound
  IsSound-ids c s = s.ids

  acknowledge-IsSound :
      (c : Connection) → IsSound c → IsSound (record c { settings_ack_timeout = none })
  unfolding IsSound
  acknowledge-IsSound c s = ground arith

  apply_settings-IsSound :
      (c : Connection) (f : SettingsFrame) {c' : Connection}
      → apply_settings config out c f ≡ ok c'
      → IsSound c
      → IsSound c'
  unfolding apply_settings
  apply_settings-IsSound c f h s =
      let (r, p, q) = >>=-ok (at c (apply_settings_frame c.remote_settings f)) _ h in
      let c₁ : Connection = record c { remote_settings = r.0 } in
      let (streams, p', q') = >>=-ok (at c₁ (update_windows c.streams r.1)) _ q in
      write_frame-IsSound out _ _ q' (
        settle-IsSound c r.0 streams
          (apply_settings_frame-IsValid c.remote_settings f (settings-IsValid c s) (at-ok c _ p))
          (update_windows-ids c.biggest_open_stream c.streams r.1 (at-ok c₁ _ p') (IsSound-ids c s))
          s)

  handle_settings-IsSound :
      (c : Connection) (f : SettingsFrame) {c' : Connection}
      → handle_settings config out c f ≡ ok c'
      → IsSound c
      → IsSound c'
  unfolding handle_settings
  handle_settings-IsSound c f h s = grind (arith, acknowledge-IsSound, apply_settings-IsSound)

  handle_ping-IsSound :
      (c : Connection) (f : PingFrame) {c' : Connection}
      → handle_ping config out c f ≡ ok c'
      → IsSound c
      → IsSound c'
  unfolding handle_ping IsSound write_frame
  handle_ping-IsSound c f h s = ground arith

  handle_window_update-IsSound :
      (c : Connection) (f : WindowUpdateFrame) {c' : Connection}
      → handle_window_update config out c f ≡ ok c'
      → IsSound c
      → IsSound c'
  unfolding handle_window_update
  handle_window_update-IsSound c f h s = grind (
    arith, change_global_window-IsSound, update_stream-IsSound,
    handle_possible_stream_error-IsSound, distribute-IsSound,
  )

  pub handle_received-IsSound :
      (c : Connection) (r : Receive.Received) (following : List (H2Result Frame)) {c' : Connection}
      → handle_received config out c r following ≡ ok (go_on c')
      → IsSound c
      → IsSound c'
  unfolding handle_received
  handle_received-IsSound c r following h s = grind (
    arith, handle_data-IsSound, handle_headers-IsSound, handle_settings-IsSound,
    handle_ping-IsSound, handle_window_update-IsSound,
  )

  pub handle_frame-IsSound :
      (c : Connection) (f : Frame) (following : List (H2Result Frame)) {c' : Connection}
      → handle_frame config out c f following ≡ ok (go_on c')
      → IsSound c
      → IsSound c'
  unfolding handle_frame
  handle_frame-IsSound c f following h s =
      let (r, p, q) = >>=-ok (at c (Receive.convert out.lib f.header.type f)) _ h in
      handle_received-IsSound c r following q s
