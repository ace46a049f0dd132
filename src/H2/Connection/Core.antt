-- ===== src/H2/Connection/Core.antt =====
-- What few operations of the connection change: the counts of its streams, the window of the peer
-- and the mark of the shutdown. All the others keep them.
pub mod Steps
pub mod Opening
use qhttp.Base.{
  ℕ, zero, suc, Bool, true, false, List, [], ◌∷◌, ◌++◌, ◌≡◌, refl, ok, err, panic, arith, >>=-ok,
  Option, none, some, ltb, length, take, drop, if-cases, inl, inr, ◌>>=◌, ◌∙◌,
}
use qhttp.Base.Int.{ℤ}
use qhttp.Buffer
use qhttp.H2.Error.{H2Error, H2Result}
use qhttp.H2.Frame.{Frame}
use qhttp.H2.Connection.{
  Config, Connection, ConnResult, Surroundings, Request, Started, write_frame, at, at-ok,
}
use qhttp.H2.Connection.Streams.{reset_stream, handle_possible_stream_error}
use qhttp.H2.Connection.ReadRequest.{read_request}
use qhttp.H2.Connection.Answers.{
  Response, status_key, max_fragment, fragment_frame, write_fragments, write_response,
}
use qhttp.H2.Connection.Requests.{distribute, change_global_window, go_on}
use qhttp.H2.Connection.Opening.{store, read_continuations, refuse_stream}

pub record Core : Type 0 where
  pub biggest : ℕ
  pub opened : ℕ
  pub peer : ℤ
  pub pending : Bool
  pub started : List Started

abbrev pub core : Connection → Core
core c = record {
  biggest = c.biggest_open_stream;
  opened = c.open_streams;
  peer = c.peer_window;
  pending = c.pending_gracefull_shutdown;
  started = c.started;
}

pub distribute-core : (c : Connection) {c' : Connection} → distribute c ≡ ok c' → core c' ≡ core c
unfolding distribute
distribute-core c h = ground arith

pub change_global_window-core :
    (c : Connection) (a : ℤ) {c' : Connection} → change_global_window c a ≡ ok c' → core c' ≡ core c
unfolding change_global_window
change_global_window-core c a h = ground arith

pub store-core :
    (c : Connection) (bytes : List ℕ) {c' : Connection} → store c bytes ≡ ok c' → core c' ≡ core c
unfolding store
store-core c bytes h = ground arith

module _ (out : Surroundings) where
  pub write_frame-core :
      (c : Connection) (f : Frame) {c' : Connection}
      → write_frame out c f ≡ ok c'
      → core c' ≡ core c
  unfolding write_frame
  write_frame-core c f h = ground arith

  pub handle_possible_stream_error-core :
      (c : Connection) (r : H2Result (Unit {0})) (id : ℕ) {c' : Connection}
      → handle_possible_stream_error out c r id ≡ ok c'
      → core c' ≡ core c
  unfolding handle_possible_stream_error
  handle_possible_stream_error-core c r id h = grind (arith, write_frame-core)

  pub write_fragments-core :
      (fuel : ℕ) (first : Bool) (c : Connection) (id : ℕ) (end_stream : Bool) (block : List ℕ)
      {c' : Connection}
      → write_fragments out fuel first c id end_stream block ≡ ok c'
      → core c' ≡ core c
  unfolding write_fragments
  write_fragments-core zero first c id end_stream block h = ground arith
  write_fragments-core (suc fuel) first c id end_stream block h =
      let frame = fragment_frame out first id end_stream in
      let more = write_frame out c (frame false (take max_fragment block)) in
      let last = write_frame out c (frame true block) in
      let rest : Connection → ConnResult Connection =
        λ c₁. write_fragments out fuel false c₁ id end_stream (drop max_fragment block) in
      elim (if-cases (ltb max_fragment (length block)) (more >>= rest) last h) [
        | inl (_, p) ↦
            (let (c₁, q, r) = >>=-ok more rest p in
              write_fragments-core fuel false c₁ id end_stream _ r ∙ write_frame-core c _ q)
        | inr (_, p) ↦ write_frame-core c _ p
      ]

  pub write_response-core :
      (c : Connection) (r : Response) (id : ℕ) (end_stream : Bool) {c' : Connection}
      → write_response out c r id end_stream ≡ ok c'
      → core c' ≡ core c
  unfolding write_response
  write_response-core c r id end_stream h =
      write_fragments-core _ true
        (record c { encoded = c.encoded ++ (((status_key, r.status) ∷ r.headers) ∷ []) }) id
        end_stream _ h

  pub read_request-core :
      (c : Connection) {r : Connection × H2Result Request}
      → read_request out c ≡ ok r
      → core r.0 ≡ core c
  unfolding read_request
  read_request-core c h = ground arith

module _ (config : Config) (out : Surroundings) where
  pub read_continuations-core :
      (following : List (H2Result Frame)) (c : Connection) (stream : ℕ) {c' : Connection}
      → read_continuations config out c stream following ≡ ok c'
      → core c' ≡ core c
  unfolding read_continuations
  read_continuations-core [] c stream h = ground arith
  read_continuations-core (r ∷ following) c stream h =
      grind (arith, store-core, read_continuations-core following)

  pub refuse_stream-core :
      (c : Connection) (id : ℕ) {c' : Connection}
      → refuse_stream config out c id ≡ ok (go_on c')
      → core c' ≡ core c
  unfolding refuse_stream
  refuse_stream-core c id h = grind (arith, handle_possible_stream_error-core)
