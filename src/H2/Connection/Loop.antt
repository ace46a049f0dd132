-- ===== src/H2/Connection/Loop.antt =====
-- The main loop of a connection, `main_loop` and `handle_inner` of src/http2/mod.rs. An event is
-- what `select!` finds ready; the bytes of the preface and of the frames are Buffer's and
-- H2/Frame/Wire's.
use qhttp.Base.{
  ℕ, zero, suc, ◌+◌, Bool, true, false, List, [], ◌∷◌, Option, none, some, Result, ok, err, panic,
  ◌==◌, ltb, if◌then◌else◌, refuse_if, ◌>>=◌, ◌>>◌,
}
use qhttp.Base.Int.{ℤ, pos, negsuc, checked_sub}
use qhttp.H2.Error.{ErrorCode, H2Error, H2Result, into_inner}
use qhttp.H2.Frame.{Frame}
use qhttp.H2.Frame.Settings.{default_frame, from_settings}
use qhttp.H2.Frame.Settings
use qhttp.H2.Frame.Ping
use qhttp.H2.Frame.GoAway
use qhttp.H2.Frame.WindowUpdate
use qhttp.H2.Frame.Wire.{protocol_error}
use qhttp.H2.Connection.{
  Config, Connection, ConnResult, Surroundings, StreamHandle, at, write_frame,
}
use qhttp.H2.Connection.Streams.{modify}
use qhttp.H2.Connection.Requests.{ConnectionReq, Next, go_on, leave, handle_conn_req}
use qhttp.H2.Connection.Frames.{handle_frame}

-- `arrived`: the result of `read_next_frame`, and the results that it has while this frame is
-- handled. `flush`: whether the writer could be flushed. `task_ended`: the task of a stream drops
-- its receiver.
pub data Event : Type 0 where
  arrived : (now : ℕ) → H2Result Frame → List (H2Result Frame) → Event
  shutdown : (now : ℕ) → Event
  tick : (now : ℕ) → Event
  flush : Bool → Event
  asked : ConnectionReq → Event
  task_ended : ℕ → Event

-- `now>timeout` for a timeout that is set
abbrev pub passed : ℕ → Option ℕ → Bool
passed now none = false
passed now (some timeout) = ltb timeout now

abbrev pub settings_timeout_error : H2Error
settings_timeout_error = H2Error.connection ErrorCode.settings_timeout

module _ (config : Config) (out : Surroundings) where
  unfoldable pub on_shutdown : Connection → ℕ → ConnResult Next
  on_shutdown c now =
      if c.open_streams == 0
      then ok (leave c)
      else (write_frame out (record c { pending_gracefull_shutdown = true })
            (Settings.into_frame out.lib (record default_frame { max_concurrent_streams = some 0 }))
          >>= λ c'.
              ok
                (go_on (record c' { settings_ack_timeout = some (now + config.settings_timeout) })))

  unfoldable pub on_tick : Connection → ℕ → ConnResult Next
  on_tick c now = do
    at c (refuse_if (passed now c.settings_ack_timeout) settings_timeout_error)
    at c (refuse_if (passed now c.ping_ack_timeout) protocol_error)
    if ltb (c.last_frame_received + config.ping_interval) now
        then (write_frame out c
              (Ping.into_frame out.lib (record { ack = false; opaque = config.ping_payload }))
            >>= λ c'.
                ok (go_on (record c' { ping_ack_timeout = some (now + config.ping_timeout) })))
        else ok (go_on c)

  unfoldable pub step : Connection → Event → ConnResult Next
  step c (arrived now result following) = at c result >>= λ frame.
      handle_frame config out (record c { last_frame_received = now }) frame following
  step c (shutdown now) = on_shutdown c now
  step c (tick now) = on_tick c now
  step c (flush taken) = if taken then ok (go_on c) else at c (err protocol_error)
  step c (asked req) = handle_conn_req out c req
  step c (task_ended id) =
      let drop_receiver : StreamHandle → StreamHandle = λ h. record h { listening = false } in
      ok (go_on (record c { streams = modify drop_receiver c.streams id }))

  -- `main_loop` on the events that come; it goes on where they end.
  unfoldable pub main_loop : Connection → List Event → ConnResult Next
  main_loop c [] = ok (go_on c)
  main_loop c (event ∷ events) =
      step c event >>= elim [ leave c' ↦ ok (leave c') | go_on c' ↦ main_loop c' events ]

  -- The beginning of `handle_inner`, after the preface: the connection that the main loop starts
  -- with, or the one that ends before it.
  unfoldable pub greet : Connection → (now : ℕ) → Result Connection Connection
  greet c now =
      ended (write_frame out c (Settings.into_frame out.lib (from_settings c.local_settings)))
      >>= λ c₁.
          announce (record c₁ { peer_window = config.initial_global_window_size })
            (checked_sub config.initial_global_window_size (pos 65_535))
          >>= λ c₂. ok (record c₂ { settings_ack_timeout = some (now + config.settings_timeout) })
    where
      ended : ConnResult Connection → Result Connection Connection
      ended (ok c) = ok c
      ended (err stopped) = err stopped.connection
      ended panic = panic

      announce : Connection → Option ℤ → Result Connection Connection
      announce c none = err c
      announce c (some (negsuc n)) = err c
      announce c (some (pos zero)) = ok c
      announce c (some (pos (suc n))) = ended (
          write_frame out c
            (WindowUpdate.into_frame (record { stream = 0; window_size_increment = suc n })))

  -- The end of `handle_inner`: what is written in all. The error of a last write is only logged.
  unfoldable pub close : Connection → ErrorCode → List Frame
  close c code =
      elim (write_frame out c (
        GoAway.into_frame (record {
          last_stream_id = c.biggest_open_stream;
          error_code = some code;
          debug_data = [];
        }))) [ ok c' ↦ c'.written | err e ↦ c.written | panic ↦ c.written ]

  -- `handle_inner` after the preface: the frames written, or none while the loop goes on.
  unfoldable pub handle_inner : Connection → (now : ℕ) → List Event → Option (List Frame)
  handle_inner c now events = elim (greet c now) [
    | panic ↦ none
    | err c' ↦ some c'.written
    | ok c' ↦ elim (main_loop c' events) [
      | ok (go_on c'') ↦ none
      | ok (leave c'') ↦ some (close c'' ErrorCode.no_error)
      | err stopped ↦ some (close stopped.connection (into_inner stopped.error))
      | panic ↦ none
    ]
  ]
