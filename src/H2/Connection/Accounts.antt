-- ===== src/H2/Connection/Accounts.antt =====
-- Accounts of a run of the main loop of src/http2/mod.rs: the window of the peer, the open streams,
-- and the end of a graceful shutdown.
pub mod Peer
pub mod Streams
pub mod Shutdown
use qhttp.Base.{
  ℕ, zero, suc, ◌+◌, ◌≡◌, ◌≤◌, Bool, true, false, List, [], ◌∷◌, ok, err, panic, arith, length,
  ◌==◌, if◌then◌else◌, Option, none, some, >>=-ok,
}
use qhttp.Base.Int.{ℤ, pos}
use qhttp.H2.Error.{H2Error, H2Result}
use qhttp.H2.Crates.{FrameType, Crates, same_type}
use qhttp.H2.Frame.{Frame}
use qhttp.H2.Frame.Data.{DataFrame}
use qhttp.H2.Frame.Receive
use qhttp.H2.Connection.{Config, Connection, ConnResult, Surroundings, at, at-ok}
use qhttp.H2.Connection.Frames.{handle_received, handle_frame}
use qhttp.H2.Connection.Answers.{Response}
use qhttp.H2.Connection.Streams.{modify}
use qhttp.H2.Connection.Requests.{
  Next, go_on, leave, ConnectionReq, frame, response, get_window, put_window, update_peer_window,
  stream_closing, stream_closed, handle_conn_req,
}
use qhttp.H2.Connection.Loop.{
  Event, arrived, shutdown, tick, flush, asked, task_ended, step, main_loop,
}

-- The bytes of a body that an event brings.
abbrev pub received : Event → ℕ
received (arrived now (ok f) following) =
    if same_type f.header.type FrameType.data_frame then length f.payload else 0
received e = 0

-- The room for the peer that a stream asks for.
abbrev pub granted : Event → ℕ
granted (asked (update_peer_window id (pos n))) = n
granted e = 0

abbrev pub closings : Event → ℕ
closings (asked (stream_closing id error)) = 1
closings e = 0

abbrev pub total : (Event → ℕ) → List Event → ℕ
total f [] = 0
total f (e ∷ events) = f e + total f events

-- A run that has not ended did not end at its first event.
pub main_loop-split :
    (config : Config) (out : Surroundings) (e : Event) (events : List Event) (c : Connection)
    {c' : Connection}
    → main_loop config out c (e ∷ events) ≡ ok (go_on c')
    → (c₁ : Connection) × (step config out c e ≡ ok (go_on c₁))
      × (main_loop config out c₁ events ≡ ok (go_on c'))
unfolding main_loop
main_loop-split config out e events c {c'} h = at_next (>>=-ok (step config out c e) after h)
  where
    after : Next → ConnResult Next
    after (leave c₁) = ok (leave c₁)
    after (go_on c₁) = main_loop config out c₁ events

    at_next :
        (next : Next) × (step config out c e ≡ ok next) × (after next ≡ ok (go_on c'))
        → (c₁ : Connection) × (step config out c e ≡ ok (go_on c₁))
          × (main_loop config out c₁ events ≡ ok (go_on c'))
    at_next (leave c₁, p, q) = cc
    at_next (go_on c₁, p, q) = (c₁, p, q)

-- A frame that is handled was first converted to its type.
pub handle_frame-split :
    (config : Config) (out : Surroundings) (c : Connection) (f : Frame)
    (following : List (H2Result Frame)) {next : Next}
    → handle_frame config out c f following ≡ ok next
    → (r : Receive.Received) × (Receive.convert out.lib f.header.type f ≡ ok r)
      × (handle_received config out c r following ≡ ok next)
unfolding handle_frame
handle_frame-split config out c f following h =
    let (r, p, q) = >>=-ok (at c (Receive.convert out.lib f.header.type f)) _ h in
    (r, at-ok c _ p, q)
