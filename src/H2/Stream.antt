-- ===== src/H2/Stream.antt =====
-- The task of a stream: `StreamState` and `Stream` of src/http2/stream.rs. The channels that tokio
-- provides are part of the state: the messages sent on them, in their order, and whether their
-- receiver is there. The channel that the task itself reads never ends, since the task keeps a
-- sender of it.
pub mod Body
pub mod Windows
pub mod Termination
mod Tests
use qhttp.Base.{
  ℕ, ◌^◌, Bool, true, false, List, [], ◌∷◌, ◌++◌, Option, none, some, Result, ok, err, panic,
  length, refuse_if, or_err, if◌then◌else◌, ◌>>=◌, ◌>>◌,
}
use qhttp.Base.Int.{ℤ, pos, ltb_ℤ, leb_ℤ, checked_add, checked_sub}
use qhttp.H2.Error.{ErrorCode, H2Error, H2Result}
use qhttp.H2.Crates.{FrameType}
use qhttp.H2.Settings.{to_i32}
use qhttp.H2.Frame.Wire.{protocol_error, internal_error}
use qhttp.H2.Connection.{StreamReq, available_window, window_update, request_body, reset}
use qhttp.H2.Connection.Requests.{
  ConnectionReq, put_window, update_peer_window, stream_closing, stream_closed,
}

pub data StreamState : Type 0 where
  idle reserved_local reserved_remote open_state half_closed_local : StreamState
  half_closed_remote closed : StreamState

abbrev forbidden : H2Result (Unit {0})
forbidden = err protocol_error

abbrev closed_error : H2Result (Unit {0})
closed_error = err (H2Error.stream ErrorCode.stream_closed)

abbrev reset_or_update : FrameType → H2Result (Unit {0}) → H2Result (Unit {0})
reset_or_update FrameType.rst_stream e = ok tt
reset_or_update FrameType.priority e = ok tt
reset_or_update FrameType.window_update e = ok tt
reset_or_update _ e = e

-- `StreamState::is_frame_forbidden`
unfoldable pub is_frame_forbidden : StreamState → FrameType → H2Result (Unit {0})
is_frame_forbidden idle FrameType.headers = ok tt
is_frame_forbidden idle FrameType.priority = ok tt
is_frame_forbidden idle _ = forbidden
is_frame_forbidden reserved_local type = reset_or_update type forbidden
is_frame_forbidden reserved_remote FrameType.headers = ok tt
is_frame_forbidden reserved_remote FrameType.rst_stream = ok tt
is_frame_forbidden reserved_remote FrameType.priority = ok tt
is_frame_forbidden reserved_remote _ = forbidden
is_frame_forbidden open_state type = ok tt
is_frame_forbidden half_closed_local type = ok tt
is_frame_forbidden half_closed_remote type = reset_or_update type closed_error
is_frame_forbidden closed type = reset_or_update type closed_error

-- `background_tx`: the parts of the request's body that went to `BackgroundRead`, and whether it is
-- still there.
pub record Background : Type 0 where
  pub listening : Bool
  pub parts : List (List ℕ)

-- `sent` and `connected` are the channel `conn_tx`. The field `state` is never read.
pub record Stream : Type 0 where
  pub id : ℕ
  pub available : ℤ
  pub window : ℤ
  pub peer_window : ℤ
  pub background : Option Background
  pub has_window_rx : Bool
  pub connected : Bool
  pub sent : List ConnectionReq

-- `Stream::new`
unfoldable pub new : ℕ → ℤ → ℤ → Stream
new id window peer_window = record {
  id = id;
  available = pos 0;
  window = window;
  peer_window = peer_window;
  background = none;
  has_window_rx = false;
  connected = true;
  sent = [];
}

-- An error, and the stream when it arose.
pub record Failed : Type 0 where
  pub error : H2Error
  pub stream : Stream

abbrev pub StreamResult : Type 0 → Type 0
StreamResult A = Result Failed A

abbrev pub fail : {A : Type 0} → Stream → H2Error → StreamResult A
fail s e = err (record { error = e; stream = s })

-- `result?` in a method of the stream.
abbrev pub at : {A : Type 0} → Stream → H2Result A → StreamResult A
at s (ok a) = ok a
at s (err e) = fail s e
at s panic = panic

-- `conn_tx.send(req)`, with the error that a closed channel leads to.
unfoldable pub tell : Stream → ConnectionReq → StreamResult Stream
tell s req =
    if s.connected then ok (record s { sent = s.sent ++ (req ∷ []) }) else fail s internal_error

-- `background_tx.send(data)`
abbrev pub pass_on : Background → List ℕ → Background
pass_on b content = record b { parts = b.parts ++ (content ∷ []) }

-- `StreamReq::RequestBody`, from the length of the data on.
unfoldable pub take_body : Stream → Background → List ℕ → StreamResult Stream
take_body s background content = do
  amount ← at s (to_i32 (length content) protocol_error)
  at s (
      refuse_if (ltb_ℤ s.peer_window (pos amount))
        (H2Error.connection ErrorCode.flow_control_error))
  if background.listening
      then (let s' : Stream = record s { background = some (pass_on background content) } in
          at s' (or_err (checked_sub s.peer_window (pos amount)) protocol_error) >>= λ window.
          ok (record s' { peer_window = window }))
      else tell s (update_peer_window s.id (pos amount))

unfoldable pub handle_req : Stream → StreamReq → StreamResult Stream
handle_req s (request_body frame) = do
  background ← at s (or_err s.background protocol_error)
  take_body s background frame.content
handle_req s (available_window amount) =
    at s (or_err (checked_add s.available amount) protocol_error) >>= λ total.
    ok (record s { available = total })
handle_req s (window_update amount) =
    at s (or_err (checked_add s.window amount) protocol_error) >>= λ total.
    ok (record s { window = total })
handle_req s reset = fail s (H2Error.stream ErrorCode.no_error)

-- What `main_select` finds ready: a message of the connection, or what the reader of the request's
-- body hands back; `read` with nothing is the end of that channel.
pub data Input : Type 0 where
  req : StreamReq → Input
  read : Option ℤ → Input

-- `main_select`. Without `window_rx` only messages are waited for.
unfoldable pub main_select : Stream → Input → StreamResult Stream
main_select s (req r) = handle_req s r
main_select s (read amount) = if s.has_window_rx then hand_back amount else ok s
  where
    hand_back : Option ℤ → StreamResult Stream
    hand_back none = ok (record s { has_window_rx = false })
    hand_back (some amount) = do
      window ← at s (or_err (checked_add s.peer_window amount) internal_error)
      tell (record s { peer_window = window }) (update_peer_window s.id amount)

-- The end of `run_inner`, where `main` has ended with `error`: what is told to the connection. A
-- message that the connection does not take ends the task.
unfoldable pub finish : Stream → Option H2Error → Stream
finish s error =
    if s.connected
    then record s {
      available = if ltb_ℤ (pos 0) s.available then pos 0 else s.available;
      sent = s.sent ++ (given_back ++ stream_closing s.id error ∷ stream_closed s.id ∷ []);
    }
    else record s { available = if ltb_ℤ (pos 0) s.available then pos 0 else s.available }
  where
    given_back : List ConnectionReq
    given_back = if ltb_ℤ (pos 0) s.available then put_window s.available ∷ [] else []
