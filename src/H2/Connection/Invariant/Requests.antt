-- ===== src/H2/Connection/Invariant/Requests.antt =====
-- Serving the tasks of the streams keeps the invariant.
use qhttp.Base.{
  ℕ, zero, suc, Bool, true, List, [], ◌∷◌, ◌++◌, ◌≡◌, ok, err, arith, >>=-ok, Option, none, some,
}
use qhttp.Base.Int.{ℤ, checked_add, ◌+ℤ◌}
use qhttp.H2.Error.{H2Error}
use qhttp.H2.Flow.{distribute_window, update_global_window}
use qhttp.H2.Flow.Bounds.{distribute_window-IsI32, update_global_window-IsI32}
use qhttp.H2.Connection.{StreamHandle, Connection, Surroundings, write_frame, at, at-ok}
use qhttp.H2.Connection.Streams.{has, is_listening, remove}
use qhttp.H2.Connection.Requests.{
  distribute, change_global_window, give_to_peer, close_stream, handle_conn_req, go_on,
  ConnectionReq, report, frame, response, get_window, put_window, update_peer_window,
  stream_closing, stream_closed,
}
use qhttp.H2.Connection.Answers.{status_key, Response, write_fragments, write_response}
use qhttp.H2.Connection.Invariant.{
  IsSound, put_streams-IsSound, write_frame-IsSound, handle_possible_stream_error-IsSound,
  remove-ids, modify-ids, deliver-ids,
}

pub distribute-IsSound :
    (c : Connection) {c' : Connection} → distribute c ≡ ok c' → IsSound c → IsSound c'
unfolding distribute IsSound
distribute-IsSound c h s =
    let (r, p, q) =
      >>=-ok (at c (distribute_window (has c.streams) (is_listening c.streams) c.windows)) _ h in
    let d = at-ok c _ p in
    ground (
      arith,
      distribute_window-IsI32 _ _ c.windows d s.global,
      deliver-ids c.biggest_open_stream c.streams r.1 s.ids,
    )

pub change_global_window-IsSound :
    (c : Connection) (a : ℤ) {c' : Connection}
    → change_global_window c a ≡ ok c'
    → IsSound c
    → IsSound c'
unfolding change_global_window IsSound
change_global_window-IsSound c a h s =
    let (w, p, q) = >>=-ok (at c (update_global_window c.windows.global_window a)) _ h in
    ground (arith, update_global_window-IsI32 c.windows.global_window a w (at-ok c _ p))

module _ (out : Surroundings) where
  give_to_peer-IsSound :
      (c : Connection) (id : ℕ) (a : ℤ) {c' : Connection}
      → give_to_peer out c id a ≡ ok c'
      → IsSound c
      → IsSound c'
  unfolding give_to_peer checked_add ◌+ℤ◌ write_frame IsSound
  give_to_peer-IsSound c id a h s = ground (arith)

  write_fragments-IsSound :
      (fuel : ℕ) (first : Bool) (c : Connection) (id : ℕ) (end_stream : Bool) (block : List ℕ)
      {c' : Connection}
      → write_fragments out fuel first c id end_stream block ≡ ok c'
      → IsSound c
      → IsSound c'
  unfolding write_fragments
  write_fragments-IsSound zero first c id end_stream block h s = ground arith
  write_fragments-IsSound (suc fuel) first c id end_stream block h s =
      grind (arith, write_frame-IsSound, write_fragments-IsSound fuel)

  encoded-IsSound :
      (c : Connection) (blocks : List (List (List ℕ × List ℕ)))
      → IsSound c
      → IsSound (record c { encoded = blocks })
  unfolding IsSound
  encoded-IsSound c blocks s = ground arith

  write_response-IsSound :
      (c : Connection) (r : Response) (id : ℕ) (end_stream : Bool) {c' : Connection}
      → write_response out c r id end_stream ≡ ok c'
      → IsSound c
      → IsSound c'
  unfolding write_response
  write_response-IsSound c r id end_stream h s =
      let headers = (status_key, r.status) ∷ r.headers in
      write_fragments-IsSound _ true (record c { encoded = c.encoded ++ (headers ∷ []) }) id
        end_stream _ h (encoded-IsSound c _ s)

  report-IsSound :
      (c : Connection) (id : ℕ) (error : Option H2Error) {c' : Connection}
      → report out c id error ≡ ok c'
      → IsSound c
      → IsSound c'
  report-IsSound c id none h s = grind arith
  report-IsSound c id (some e) h s = handle_possible_stream_error-IsSound out c (err e) id h s

  close_stream-IsSound :
      (c : Connection) (id : ℕ) (error : Option H2Error) {c' : Connection}
      → close_stream out c id error ≡ ok (go_on c')
      → IsSound c
      → IsSound c'
  unfolding close_stream IsSound
  close_stream-IsSound c id error h s =
      let (c₁, p, q) = >>=-ok (report out c id error) _ h in
      let s₁ = report-IsSound c id error p s in
      let f : StreamHandle → StreamHandle = λ h. record h { closed = true } in
      ground (arith, s₁, modify-ids c₁.biggest_open_stream f c₁.streams id s₁.ids)

  remove-IsSound :
      (c : Connection) (id : ℕ) → IsSound c → IsSound (record c { streams = remove c.streams id })
  unfolding IsSound
  remove-IsSound c id s =
      put_streams-IsSound c _ (remove-ids c.biggest_open_stream c.streams id s.ids) s

  ask-IsSound :
      (c : Connection) (r : List (ℕ × ℤ))
      → IsSound c
      → IsSound (record c { windows = record c.windows { requests = r } })
  unfolding IsSound
  ask-IsSound c r s = ground arith

  pub handle_conn_req-IsSound :
      (c : Connection) (req : ConnectionReq) {c' : Connection}
      → handle_conn_req out c req ≡ ok (go_on c')
      → IsSound c
      → IsSound c'
  unfolding handle_conn_req
  handle_conn_req-IsSound c (frame f) h s = grind (arith, write_frame-IsSound)
  handle_conn_req-IsSound c (response r id e) h s = grind (arith, write_response-IsSound)
  handle_conn_req-IsSound c (get_window id a) h s = grind (arith, ask-IsSound, distribute-IsSound)
  handle_conn_req-IsSound c (put_window a) h s =
      grind (arith, change_global_window-IsSound, distribute-IsSound)
  handle_conn_req-IsSound c (update_peer_window id a) h s = grind (arith, give_to_peer-IsSound)
  handle_conn_req-IsSound c (stream_closing id e) h s = close_stream-IsSound c id e h s
  handle_conn_req-IsSound c (stream_closed id) h s = grind (arith, remove-IsSound)
