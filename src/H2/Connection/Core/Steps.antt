-- ===== src/H2/Connection/Core/Steps.antt =====
-- What each event does to the counts of the streams, the window of the peer and the mark of the
-- shutdown.
use qhttp.Base.{
  ℕ, suc, ◌+◌, ◌-◌, ◌<◌, true, ◌≡◌, ok, err, arith, >>=-ok, Option, none, some, length,
}
use qhttp.Base.Int.{ℤ, pos, pos_part, checked_sub, checked_add, ◌-ℤ◌, ◌+ℤ◌}
use qhttp.H2.Error.{H2Error}
use qhttp.H2.Settings.{SettingsFrame}
use qhttp.H2.Frame.Data.{DataFrame}
use qhttp.H2.Frame.Ping.{PingFrame}
use qhttp.H2.Frame.WindowUpdate.{WindowUpdateFrame}
use qhttp.H2.Connection.{Config, Connection, Surroundings, write_frame}
use qhttp.H2.Connection.Requests.{go_on, give_to_peer, close_stream, report}
use qhttp.H2.Connection.Frames.{
  handle_data, apply_settings, handle_settings, handle_ping, handle_window_update, update_stream,
}
use qhttp.H2.Connection.Loop.{on_shutdown, on_tick}
use qhttp.H2.Connection.Core.{
  core, distribute-core, change_global_window-core, write_frame-core,
  handle_possible_stream_error-core,
}

-- A DATA frame takes its length off the window of the peer.
pub handle_data-core :
    (c : Connection) (f : DataFrame) {c' : Connection} (w : ℕ)
    → handle_data c f ≡ ok c'
    → c.peer_window ≡ pos w
    → (n : ℕ) × (w ≡ n + length f.content) × (core c' ≡ record (core c) { peer = pos n })
unfolding handle_data checked_sub ◌-ℤ◌
handle_data-core c f w h p = (w - length f.content, ground arith, ground arith)

module _ (config : Config) (out : Surroundings) where
  apply_settings-core :
      (c : Connection) (f : SettingsFrame) {c' : Connection}
      → apply_settings config out c f ≡ ok c'
      → core c' ≡ core c
  unfolding apply_settings
  apply_settings-core c f h = grind (arith, write_frame-core)

  pub handle_settings-core :
      (c : Connection) (f : SettingsFrame) {c' : Connection}
      → handle_settings config out c f ≡ ok c'
      → core c' ≡ core c
  unfolding handle_settings
  handle_settings-core c f h = grind (arith, apply_settings-core)

  pub handle_ping-core :
      (c : Connection) (f : PingFrame) {c' : Connection}
      → handle_ping config out c f ≡ ok c'
      → core c' ≡ core c
  unfolding handle_ping
  handle_ping-core c f h = grind (arith, write_frame-core)

  update_stream-core : (c : Connection) (id : ℕ) (a : ℤ) → core (update_stream c id a).0 ≡ core c
  update_stream-core c id a = ground arith

  pub handle_window_update-core :
      (c : Connection) (f : WindowUpdateFrame) {c' : Connection}
      → handle_window_update config out c f ≡ ok c'
      → core c' ≡ core c
  unfolding handle_window_update
  handle_window_update-core c f h = grind (
    arith, update_stream-core, change_global_window-core, handle_possible_stream_error-core,
    distribute-core,
  )

  pub on_tick-core :
      (c : Connection) (now : ℕ) {c' : Connection}
      → on_tick config out c now ≡ ok (go_on c')
      → core c' ≡ core c
  unfolding on_tick
  on_tick-core c now h = grind (arith, write_frame-core)

  pub on_shutdown-core :
      (c : Connection) (now : ℕ) {c' : Connection}
      → on_shutdown config out c now ≡ ok (go_on c')
      → (core c' ≡ record (core c) { pending = true }) × (0 < c.open_streams)
  unfolding on_shutdown write_frame
  on_shutdown-core c now h = ground arith

  -- A granted amount is not negative, and raises the window of the peer.
  pub give_to_peer-core :
      (c : Connection) (id : ℕ) (a : ℤ) {c' : Connection} (w : ℕ)
      → give_to_peer out c id a ≡ ok c'
      → c.peer_window ≡ pos w
      → (n : ℕ) × (a ≡ pos n) × (core c' ≡ record (core c) { peer = pos (w + n) })
  unfolding give_to_peer checked_add ◌+ℤ◌ write_frame
  give_to_peer-core c id a w h p = (pos_part a, ground arith, ground arith)

  report-core :
      (c : Connection) (id : ℕ) (error : Option H2Error) {c' : Connection}
      → report out c id error ≡ ok c'
      → core c' ≡ core c
  report-core c id none h = ground arith
  report-core c id (some e) h = handle_possible_stream_error-core out c (err e) id h

  -- A closing stream is counted off; the last one of a shutdown ends the loop.
  pub close_stream-core :
      (c : Connection) (id : ℕ) (error : Option H2Error) {c' : Connection}
      → close_stream out c id error ≡ ok (go_on c')
      → (n : ℕ) × (c.open_streams ≡ suc n)
        × (core c' ≡ record (core c) { opened = n })
        × (c.pending_gracefull_shutdown ≡ true → 0 < n)
  unfolding close_stream
  close_stream-core c id error h =
      let (c₁, p, q) = >>=-ok (report out c id error) _ h in
      let e : core c₁ ≡ core c = report-core c id error p in
      (c.open_streams - 1, ground (arith, e), ground (arith, e), λ t. ground (arith, e, t))
