-- ===== src/H2/Connection/Requests.antt =====
-- What the tasks of the streams ask of the connection: `ConnectionReq` of src/http2/mod.rs and the
-- arm of the main loop that serves it, with `update_global_window` and `distribute_window` as
-- H2/Flow models them.
use qhttp.Base.{
  ℕ, ◌-◌, Bool, true, ◌&&◌, [], ◌∷◌, ◌++◌, Option, none, some, ok, err, ◌==◌, if◌then◌else◌, ◌>>=◌,
}
use qhttp.Base.Int.{ℤ, pos, negsuc, checked_add}
use qhttp.H2.Error.{H2Error}
use qhttp.H2.Frame.{Frame}
use qhttp.H2.Frame.WindowUpdate
use qhttp.H2.Frame.Wire.{internal_error}
use qhttp.H2.Flow.{update_global_window, distribute_window}
use qhttp.H2.Connection.{Connection, ConnResult, Surroundings, StreamHandle, at, stop, write_frame}
use qhttp.H2.Connection.Streams.{
  remove, modify, has, is_listening, deliver, handle_possible_stream_error,
}
use qhttp.H2.Connection.Answers.{Response, write_response}

-- `frame` and `response` are to be written; `get_window` asks for a part of the global window and
-- `put_window` returns one; `update_peer_window` gives the peer room for more of a body.
pub data ConnectionReq : Type 0 where
  frame : Frame → ConnectionReq
  response : Response → ℕ → Bool → ConnectionReq
  get_window : ℕ → ℤ → ConnectionReq
  put_window : ℤ → ConnectionReq
  update_peer_window : ℕ → ℤ → ConnectionReq
  stream_closing : ℕ → Option H2Error → ConnectionReq
  stream_closed : ℕ → ConnectionReq

-- How an arm of the loop ends: with `continue`, or with `break` or `return Ok(())`.
pub data Next : Type 0 where
  go_on : Connection → Next
  leave : Connection → Next

-- `distribute_window` with the streams of the connection. When it fails, the connection is given
-- as it was before.
unfoldable pub distribute : Connection → ConnResult Connection
distribute c = at c (distribute_window (has c.streams) (is_listening c.streams) c.windows) >>= λ r.
    ok (record c { windows = r.0; streams = deliver c.streams r.1 })

unfoldable pub change_global_window : Connection → ℤ → ConnResult Connection
change_global_window c amount =
    at c (update_global_window c.windows.global_window amount) >>= λ window.
    ok (record c { windows = record c.windows { global_window = window } })

-- An `i32` to `u32` by `try_into`.
abbrev pub to_u32 : ℤ → Option ℕ
to_u32 (pos n) = some n
to_u32 (negsuc n) = none

abbrev pub some_or_stop : {A : Type 0} → Connection → Option A → ConnResult A
some_or_stop c none = stop c internal_error
some_or_stop c (some a) = ok a

-- `checked_sub(1)`
abbrev pub pred? : ℕ → Option ℕ
pred? n = if n == 0 then none else some (n - 1)

module _ (out : Surroundings) where
  -- `UpdatePeerWindow`
  unfoldable pub give_to_peer : Connection → ℕ → ℤ → ConnResult Connection
  give_to_peer c id amount = do
    window ← some_or_stop c (checked_add c.peer_window amount)
    let c₁ : Connection = record c { peer_window = window }
    increment ← some_or_stop c₁ (to_u32 amount)
    c₂ ←
        write_frame out c₁
          (WindowUpdate.into_frame (record { stream = 0; window_size_increment = increment }))
    write_frame out c₂
        (WindowUpdate.into_frame (record { stream = id; window_size_increment = increment }))

  -- The error that the task of a closing stream reports.
  abbrev pub report : Connection → ℕ → Option H2Error → ConnResult Connection
  report c id none = ok c
  report c id (some e) = handle_possible_stream_error out c (err e) id

  -- `StreamClosing`
  unfoldable pub close_stream : Connection → ℕ → Option H2Error → ConnResult Next
  close_stream c id error = do
    c₁ ← report c id error
    left ← some_or_stop c₁ (pred? c₁.open_streams)
    let c₂ : Connection = record c₁ { open_streams = left }
    let mark : StreamHandle → StreamHandle = λ h. record h { closed = true }
    ok (
        if c₂.pending_gracefull_shutdown && (left == 0)
        then leave c₂
        else go_on (record c₂ { streams = modify mark c₂.streams id }))

  unfoldable pub handle_conn_req : Connection → ConnectionReq → ConnResult Next
  handle_conn_req c (frame f) = write_frame out c f >>= λ c'. ok (go_on c')
  handle_conn_req c (response resp id end_stream) =
      write_response out c resp id end_stream >>= λ c'. ok (go_on c')
  handle_conn_req c (get_window id amount) =
      distribute (record c {
        windows = record c.windows { requests = c.windows.requests ++ ((id, amount) ∷ []) };
      })
      >>= λ c'. ok (go_on c')
  handle_conn_req c (put_window amount) =
      change_global_window c amount >>= λ c'. distribute c' >>= λ c''. ok (go_on c'')
  handle_conn_req c (update_peer_window id amount) =
      give_to_peer c id amount >>= λ c'. ok (go_on c')
  handle_conn_req c (stream_closing id error) = close_stream c id error
  handle_conn_req c (stream_closed id) = ok (go_on (record c { streams = remove c.streams id }))
