-- ===== src/H2/Connection/Invariant/Opening.antt =====
-- Receiving a header block and starting a stream keep the invariant.
use qhttp.Base.{
  ℕ, Bool, true, false, List, [], ◌∷◌, ◌≡◌, ◌≤◌, ◌%◌, ok, arith, >>=-ok, ltb, if◌then◌else◌,
}
use qhttp.Buffer
use qhttp.H2.Error.{H2Result}
use qhttp.H2.Frame.{Frame}
use qhttp.H2.Frame.Headers.{HeadersFrame}
use qhttp.H2.Connection.{Config, StreamHandle, Connection, Surroundings, Request}
use qhttp.H2.Connection.Streams.{insert}
use qhttp.H2.Connection.ReadRequest.{read_request}
use qhttp.H2.Connection.Requests.{go_on}
use qhttp.H2.Connection.Opening.{
  store, initial_windows, start_stream, read_continuations, refuse_stream, serve, open_stream,
  handle_headers,
}
use qhttp.H2.Connection.Invariant.{
  HaveIds, IsSound, remove-ids, handle_possible_stream_error-IsSound,
}

raise-ids : (a b : ℕ) (s : List (ℕ × StreamHandle)) → a ≤ b → HaveIds a s → HaveIds b s
unfolding HaveIds
raise-ids a b [] le h = h
raise-ids a b ((id, x) ∷ s) le h = ((h.0.0, omega (arith, le, h.0.1)), raise-ids a b s le h.1)

insert-ids :
    (b : ℕ) (s : List (ℕ × StreamHandle)) (id : ℕ) (x : StreamHandle)
    → id % 2 ≡ 1
    → id ≤ b
    → HaveIds b s
    → HaveIds b (insert s id x)
unfolding HaveIds
insert-ids b s id x odd le h = ((odd, le), remove-ids b s id h)

store-IsSound :
    (c : Connection) (bytes : List ℕ) {c' : Connection}
    → store c bytes ≡ ok c'
    → IsSound c
    → IsSound c'
unfolding store IsSound
store-IsSound c bytes h s = ground arith

start_stream-IsSound :
    (c : Connection) (id : ℕ) (end_stream : Bool) (request : Request) {c' : Connection}
    → start_stream c id end_stream request ≡ ok (go_on c')
    → id % 2 ≡ 1
    → IsSound c
    → IsSound c'
unfolding start_stream IsSound
start_stream-IsSound c id end_stream request h odd s =
    let b : ℕ = if ltb c.biggest_open_stream id then id else c.biggest_open_stream in
    let x : StreamHandle = record { closed = false; listening = true; sent = [] } in
    let (w, p, q) = >>=-ok (initial_windows c) _ h in
    ground (
      arith,
      insert-ids b c.streams id x odd (ground arith)
          (raise-ids c.biggest_open_stream b c.streams (ground arith) s.ids),
    )

module _ (config : Config) (out : Surroundings) where
  read_continuations-IsSound :
      (following : List (H2Result Frame)) (c : Connection) (stream : ℕ) {c' : Connection}
      → read_continuations config out c stream following ≡ ok c'
      → IsSound c
      → IsSound c'
  unfolding read_continuations
  read_continuations-IsSound [] c stream h s = ground arith
  read_continuations-IsSound (r ∷ following) c stream h s =
      grind (arith, store-IsSound, read_continuations-IsSound following)

  reset-IsSound :
      (c : Connection) (b : Buffer.Buffer) → IsSound c → IsSound (record c { header_buffer = b })
  unfolding IsSound
  reset-IsSound c b s = ground arith

  refuse_stream-IsSound :
      (c : Connection) (id : ℕ) {c' : Connection}
      → refuse_stream config out c id ≡ ok (go_on c')
      → IsSound c
      → IsSound c'
  unfolding refuse_stream
  refuse_stream-IsSound c id h s =
      grind (arith, handle_possible_stream_error-IsSound, reset-IsSound)

  read_request-IsSound :
      (c : Connection) {r : Connection × H2Result Request}
      → read_request out c ≡ ok r
      → IsSound c
      → IsSound r.0
  unfolding read_request IsSound
  read_request-IsSound c h s = ground arith

  serve-IsSound :
      (c : Connection) (id : ℕ) (end_stream : Bool) (r : H2Result Request) {c' : Connection}
      → serve config out c id end_stream r ≡ ok (go_on c')
      → id % 2 ≡ 1
      → IsSound c
      → IsSound c'
  unfolding serve
  serve-IsSound c id end_stream r h odd s =
      grind (arith, start_stream-IsSound, handle_possible_stream_error-IsSound)

  open_stream-IsSound :
      (c : Connection) (id : ℕ) (end_stream : Bool) {c' : Connection}
      → open_stream config out c id end_stream ≡ ok (go_on c')
      → id % 2 ≡ 1
      → IsSound c
      → IsSound c'
  unfolding open_stream
  open_stream-IsSound c id end_stream h odd s =
      grind (arith, refuse_stream-IsSound, read_request-IsSound, serve-IsSound)

  pub handle_headers-IsSound :
      (c : Connection) (f : HeadersFrame) (following : List (H2Result Frame)) {c' : Connection}
      → handle_headers config out c f following ≡ ok (go_on c')
      → IsSound c
      → IsSound c'
  unfolding handle_headers
  handle_headers-IsSound c f following h s =
      grind (arith, store-IsSound, read_continuations-IsSound following, open_stream-IsSound)
