-- ===== src/H2/Connection/Invariant/Loop.antt =====
-- The invariant holds of the connection that the main loop begins with, and along its runs.
use qhttp.Base.{ℕ, List, [], ◌∷◌, ◌≡◌, ok, arith, >>=-ok}
use qhttp.Base.Int.{checked_sub, ◌-ℤ◌}
use qhttp.H2.Connection.{Config, StreamHandle, Connection, Surroundings, new, write_frame, at}
use qhttp.H2.Connection.Streams.{modify}
use qhttp.H2.Connection.Requests.{go_on}
use qhttp.H2.Connection.Loop.{
  Event, arrived, shutdown, tick, flush, asked, task_ended, on_shutdown, on_tick, step, main_loop,
  greet,
}
use qhttp.H2.Connection.Invariant.{HaveIds, IsSound, IsWindow, modify-ids, put_streams-IsSound}
use qhttp.H2.Connection.Invariant.Requests.{handle_conn_req-IsSound}
use qhttp.H2.Connection.Invariant.Frames.{handle_frame-IsSound, IsSound-ids}

module _ (config : Config) (out : Surroundings) where
  on_shutdown-IsSound :
      (c : Connection) (now : ℕ) {c' : Connection}
      → on_shutdown config out c now ≡ ok (go_on c')
      → IsSound c
      → IsSound c'
  unfolding on_shutdown IsSound write_frame
  on_shutdown-IsSound c now h s = ground arith

  on_tick-IsSound :
      (c : Connection) (now : ℕ) {c' : Connection}
      → on_tick config out c now ≡ ok (go_on c')
      → IsSound c
      → IsSound c'
  unfolding on_tick IsSound write_frame
  on_tick-IsSound c now h s = ground arith

  touch-IsSound :
      (c : Connection) (now : ℕ) → IsSound c → IsSound (record c { last_frame_received = now })
  unfolding IsSound
  touch-IsSound c now s = ground arith

  task_ended-IsSound :
      (c : Connection) (f : StreamHandle → StreamHandle) (id : ℕ)
      → IsSound c
      → IsSound (record c { streams = modify f c.streams id })
  task_ended-IsSound c f id s =
      put_streams-IsSound c _
        (modify-ids c.biggest_open_stream f c.streams id (IsSound-ids config out c s)) s

  -- Every event keeps the invariant.
  pub step-IsSound :
      (c : Connection) (e : Event) {c' : Connection}
      → step config out c e ≡ ok (go_on c')
      → IsSound c
      → IsSound c'
  unfolding step
  step-IsSound c (arrived now r following) h s =
      let (f, p, q) = >>=-ok (at c r) _ h in
      handle_frame-IsSound config out (record c { last_frame_received = now }) f following q
        (touch-IsSound c now s)
  step-IsSound c (shutdown now) h s = on_shutdown-IsSound c now h s
  step-IsSound c (tick now) h s = on_tick-IsSound c now h s
  step-IsSound c (flush taken) h s = grind arith
  step-IsSound c (asked req) h s = handle_conn_req-IsSound out c req h s
  step-IsSound c (task_ended id) h s = grind (arith, task_ended-IsSound)

  main_loop-IsSound :
      (events : List Event) (c : Connection) {c' : Connection}
      → main_loop config out c events ≡ ok (go_on c')
      → IsSound c
      → IsSound c'
  unfolding main_loop
  main_loop-IsSound [] c h s = grind arith
  main_loop-IsSound (e ∷ events) c h s = grind (arith, step-IsSound, main_loop-IsSound events)

  greet-IsSound :
      (now : ℕ) {c' : Connection}
      → IsWindow config.initial_global_window_size
      → greet config out (new config now) now ≡ ok c'
      → IsSound c'
  unfolding greet IsSound new HaveIds write_frame checked_sub ◌-ℤ◌
  greet-IsSound now w h = ground arith

  -- Whatever happens on a new connection whose configured window is an `i32` that is not negative:
  -- while it is open, its streams have odd ids, none above the biggest, its count of open streams
  -- is a `u32`, the window of the peer an `i32` that is not negative and the global window an
  -- `i32`, and the settings of the peer are within the limits of RFC 7540.
  pub handle-IsSound :
      (now : ℕ) (events : List Event) {c c' : Connection}
      → IsWindow config.initial_global_window_size
      → greet config out (new config now) now ≡ ok c
      → main_loop config out c events ≡ ok (go_on c')
      → IsSound c'
  handle-IsSound now events w g h = main_loop-IsSound events _ h (greet-IsSound now w g)
