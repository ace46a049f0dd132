-- ===== src/H2/Connection/Opening.antt =====
-- The HEADERS arm of the main loop in src/http2/mod.rs: the header block of a request, its refusal
-- and the start of a stream.
pub mod Fragmented
use qhttp.Base.{
  ℕ, suc, ◌^◌, Bool, true, false, not, ◌&&◌, List, [], ◌∷◌, ◌++◌, Option, none, some, ok, err,
  panic, ◌==◌, ltb, leb, ◌%◌, if◌then◌else◌, length, refuse_if, ◌>>=◌, ◌>>◌,
}
use qhttp.Buffer
use qhttp.H2.Error.{ErrorCode, H2Error, H2Result}
use qhttp.H2.Crates.{FrameType, same_type}
use qhttp.H2.Settings.{to_i32}
use qhttp.H2.Frame.{Frame}
use qhttp.H2.Frame.Headers
use qhttp.H2.Frame.Continuation
use qhttp.H2.Frame.Wire.{protocol_error}
use qhttp.H2.Connection.{
  Config, Connection, ConnResult, Surroundings, Request, Started, StreamHandle, at, stop,
}
use qhttp.H2.Connection.Streams.{has, insert, handle_possible_stream_error}
use qhttp.H2.Connection.ReadRequest.{read_request}
use qhttp.H2.Connection.Requests.{Next, go_on, some_or_stop}

abbrev refused_stream : H2Error
refused_stream = H2Error.stream ErrorCode.refused_stream

-- A fragment goes to the header buffer, which must take all of it. The buffer's `write` returns
-- `Ok`, so that an error of its model is the panic of `unwrap`.
unfoldable pub store : Connection → List ℕ → ConnResult Connection
store c fragment = elim (Buffer.write c.header_buffer fragment) [
  | ok r ↦
      (let c' : Connection = record c { header_buffer = r.0 } in
        if r.1 == length fragment then ok c' else stop c' protocol_error)
  | err e ↦ panic
  | panic ↦ panic
]

-- `checked_add(1)` of a `u32`
abbrev pub succ? : ℕ → Option ℕ
succ? n = if ltb (suc n) (2 ^ 32) then some (suc n) else none

-- `if let Some(max_concurrent_streams) = …`
abbrev pub at_limit : Option ℕ → ℕ → Bool
at_limit none open_streams = false
at_limit (some limit) open_streams = leb limit open_streams

-- Both sides' initial window sizes become `i32`.
abbrev pub initial_windows : Connection → ConnResult (ℕ × ℕ)
initial_windows c = do
  window ← at c (to_i32 c.remote_settings.initial_window_size protocol_error)
  peer_window ← at c (to_i32 c.local_settings.initial_window_size protocol_error)
  ok (window, peer_window)

-- The new handle, and the arguments of the task.
unfoldable pub start_stream : Connection → ℕ → Bool → Request → ConnResult Next
start_stream c id end_stream request = do
  (window, peer_window) ← initial_windows c
  let biggest = if ltb c.biggest_open_stream id then id else c.biggest_open_stream
  let c₁ : Connection = record c { biggest_open_stream = biggest }
  opened ← some_or_stop c₁ (succ? c.open_streams)
  let handle : StreamHandle = record { closed = false; listening = true; sent = [] }
  let stream : Started = record {
    id = id;
    window = window;
    peer_window = peer_window;
    request = request;
    end_stream = end_stream;
  }
  ok (
      go_on (record c₁ {
        open_streams = opened;
        streams = insert c.streams id handle;
        started = c.started ++ (stream ∷ []);
      }))

module _ (config : Config) (out : Surroundings) where
  -- The loop over CONTINUATION frames: `following` are the results of `read_next_frame`, and after
  -- them the peer sends nothing, which is an error of the connection.
  unfoldable pub read_continuations : Connection → ℕ → List (H2Result Frame) → ConnResult Connection
  read_continuations c stream [] = stop c protocol_error
  read_continuations c stream (result ∷ following) = do
    frame ← at c result
    at c (refuse_if (not (same_type frame.header.type FrameType.continuation)) protocol_error)
    continuation ← at c (Continuation.try_from out.lib frame)
    at c (refuse_if (not (continuation.stream == stream)) protocol_error)
    c' ← store c continuation.fragment
    if continuation.end_headers then ok c' else read_continuations c' stream following

  -- A refused stream: its header block is dropped and the peer is told.
  unfoldable pub refuse_stream : Connection → ℕ → ConnResult Next
  refuse_stream c stream =
      handle_possible_stream_error out (record c { header_buffer = Buffer.reset c.header_buffer })
        (err refused_stream) stream
      >>= λ c'. ok (go_on c')

  -- The `match self.read_request().await` and what follows it.
  unfoldable pub serve : Connection → ℕ → Bool → H2Result Request → ConnResult Next
  serve c stream end_stream (ok request) = start_stream c stream end_stream request
  serve c stream end_stream (err e) =
      handle_possible_stream_error out c (err e) stream >>= λ c'. ok (go_on c')
  serve c stream end_stream panic = panic

  -- After the header block is complete.
  unfoldable pub open_stream : Connection → ℕ → Bool → ConnResult Next
  open_stream c stream end_stream =
      if c.pending_gracefull_shutdown
      then refuse_stream c stream
      else if at_limit config.settings.max_concurrent_streams c.open_streams
      then refuse_stream c stream
      else (read_request out c >>= λ r. serve r.0 stream end_stream r.1)

  unfoldable pub handle_headers :
      Connection → Headers.HeadersFrame → List (H2Result Frame) → ConnResult Next
  handle_headers c frame following = do
    at c (refuse_if (frame.stream % 2 == 0) protocol_error)
    at c (
        refuse_if (not (has c.streams frame.stream) && leb frame.stream c.biggest_open_stream)
          protocol_error)
    c₁ ← store c frame.fragment
    c₂ ← if frame.end_headers then ok c₁ else read_continuations c₁ frame.stream following
    open_stream c₂ frame.stream frame.end_stream
