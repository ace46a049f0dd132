-- ===== src/H2/Connection.antt =====
-- `Connection` of src/http2/mod.rs: the state of one HTTP/2 connection and what its main loop keeps
-- of the streams. Its children model the steps of the loop.
--
-- What the connection is given by tokio, by the hpack crate and by the http crate is the record
-- `Surroundings`; an instant is a number. The children's functions return the connection as it is
-- then, also beside an error.
pub mod Streams
pub mod ReadRequest
pub mod Answers
pub mod Requests
pub mod Opening
pub mod Frames
pub mod Loop
pub mod Invariant
pub mod Core
pub mod Accounts
pub mod Examples
mod Tests
use qhttp.Base.{
  ℕ, ◌+◌, ◌^◌, ◌≡◌, Bool, true, false, List, [], ◌∷◌, ◌++◌, Option, none, some, Result, ok, err,
  panic, if◌then◌else◌,
}
use qhttp.Base.Int.{ℤ, pos}
use qhttp.Buffer.{Buffer, with_capacity}
use qhttp.H2.Error.{H2Error, H2Result}
use qhttp.H2.Crates.{Crates}
use qhttp.H2.Settings.{Settings, default_settings}
use qhttp.H2.Frame.{Frame}
use qhttp.H2.Frame.Data.{DataFrame}
use qhttp.H2.Frame.Wire.{protocol_error}
use qhttp.H2.Flow.{Windows}

-- The part of `Config` that the connection reads.
pub record Config : Type 0 where
  pub settings : Settings
  pub settings_timeout : ℕ
  pub ping_interval : ℕ
  pub ping_timeout : ℕ
  pub ping_payload : ℕ
  pub initial_global_window_size : ℤ
  pub request_header_buf_size : ℕ

-- What the main loop sends to the task of a stream.
pub data StreamReq : Type 0 where
  available_window : ℤ → StreamReq
  window_update : ℤ → StreamReq
  request_body : DataFrame → StreamReq
  reset : StreamReq

-- A handle, with the channel that it sends on: the messages sent, in their order, and whether the
-- task still holds the receiver.
pub record StreamHandle : Type 0 where
  pub closed : Bool
  pub listening : Bool
  pub sent : List StreamReq

-- A request as `read_request` builds it; the values are kept as they were sent.
pub record Request : Type 0 where
  pub method : List ℕ
  pub uri : Option (List ℕ)
  pub headers : List (List ℕ × List ℕ)

-- A stream that the loop has started: the arguments of `Stream::new` and of `run`.
pub record Started : Type 0 where
  pub id : ℕ
  pub window : ℕ
  pub peer_window : ℕ
  pub request : Request
  pub end_stream : Bool

-- `windows` holds `global_window` and `pending_window_req`. `decoded` are the header blocks that
-- went through `header_decoder`, and `encoded` those of `header_encoder`: the state of the two.
-- `written` are the frames that went to `writer`, and `started` the streams that were started.
pub record Connection : Type 0 where
  pub remote_settings : Settings
  pub local_settings : Settings
  pub last_frame_received : ℕ
  pub settings_ack_timeout : Option ℕ
  pub ping_ack_timeout : Option ℕ
  pub header_buffer : Buffer
  pub decoded : List (List ℕ)
  pub encoded : List (List (List ℕ × List ℕ))
  pub streams : List (ℕ × StreamHandle)
  pub biggest_open_stream : ℕ
  pub open_streams : ℕ
  pub windows : Windows
  pub peer_window : ℤ
  pub pending_gracefull_shutdown : Bool
  pub written : List Frame
  pub started : List Started

-- `Connection::new`, with new buffers: those of the pool are of the same capacity.
unfoldable pub new : Config → (now : ℕ) → Connection
new config now = record {
  remote_settings = default_settings;
  local_settings = config.settings;
  last_frame_received = now;
  settings_ack_timeout = none;
  ping_ack_timeout = none;
  header_buffer = with_capacity config.request_header_buf_size;
  decoded = [];
  encoded = [];
  streams = [];
  biggest_open_stream = 0;
  open_streams = 0;
  windows = record { global_window = pos 65_535; requests = [] };
  peer_window = pos 65_535;
  pending_gracefull_shutdown = false;
  written = [];
  started = [];
}

-- `writes` says whether the writer takes a frame after the frames written before; `decode` and
-- `encode` are the hpack crate's, after the blocks that came before; the others are the http
-- crate's checks of a method, of a URI, of a header's name, which it returns in lower case, and of
-- a header's value.
pub record Surroundings : Type 0 where
  pub lib : Crates
  pub writes : List Frame → Frame → Bool
  pub decode : List (List ℕ) → List ℕ → Option (List (List ℕ × List ℕ))
  pub encode : List (List (List ℕ × List ℕ)) → List (List ℕ × List ℕ) → List ℕ
  pub valid_method : List ℕ → Bool
  pub valid_uri : List ℕ → Bool
  pub header_name : List ℕ → Option (List ℕ)
  pub valid_value : List ℕ → Bool

-- An error, and the connection when it arose.
pub record Stopped : Type 0 where
  pub error : H2Error
  pub connection : Connection

abbrev pub ConnResult : Type 0 → Type 0
ConnResult A = Result Stopped A

-- `result?` in a method of the connection.
abbrev pub at : {A : Type 0} → Connection → H2Result A → Result Stopped A
at c (ok a) = ok a
at c (err e) = err (record { error = e; connection = c })
at c panic = panic

pub at-ok : {A : Type 0} (c : Connection) (r : H2Result A) {a : A} → at c r ≡ ok a → r ≡ ok a
at-ok c (ok a) h = cc
at-ok c (err e) h = cc
at-ok c panic h = cc

-- `return Err(e)`
abbrev pub stop {ℓ} : {A : Type ℓ} → Connection → H2Error → Result Stopped A
stop c e = err (record { error = e; connection = c })

-- `write_frame(frame).await?`: an error of the writer is a PROTOCOL_ERROR.
unfoldable pub write_frame : Surroundings → Connection → Frame → ConnResult Connection
write_frame out c frame =
    if out.writes c.written frame
    then ok (record c { written = c.written ++ (frame ∷ []) })
    else stop c protocol_error
