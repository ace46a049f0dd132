-- ===== src/H2/Connection/Invariant.antt =====
-- What holds of a connection between two rounds of the main loop of src/http2/mod.rs.
pub mod Requests
pub mod Opening
pub mod Frames
pub mod Loop
use qhttp.Base.{
  ℕ, ◌+◌, ◌≡◌, ◌≤◌, ◌<◌, ◌^◌, ◌%◌, ◌==◌, if◌then◌else◌, List, [], ◌∷◌, ok, err, panic, Option, none,
  some, All, arith, Bool-cases, inl, inr, true, false,
}
use qhttp.Base.Int.{ℤ, pos, IsI32}
use qhttp.H2.Settings.Apply.{IsValid}
use qhttp.H2.Error.{H2Error, H2Result}
use qhttp.H2.Frame.{Frame}
use qhttp.H2.Connection.{
  StreamHandle, reset, Connection, Surroundings, ConnResult, write_frame, stop,
}
use qhttp.H2.Connection.Streams.{
  get, send, remove, modify, deliver, insert, reset_stream, handle_possible_stream_error,
}

-- An `i32` that is not negative.
pub record IsWindow (window : ℤ) : Type 0 where
  pub size : ℕ
  pub is_size : window ≡ pos size
  pub bounded : size < 2 ^ 31

-- The streams are the peer's, of odd ids, none above the biggest.
unfoldable pub HaveIds : ℕ → List (ℕ × StreamHandle) → Type 0
HaveIds biggest streams = All (λ s. (s.0 % 2 ≡ 1) × (s.0 ≤ biggest)) streams

pub record Sound (c : Connection) : Type 0 where
  pub ids : HaveIds c.biggest_open_stream c.streams
  pub opened : c.open_streams < 2 ^ 32
  pub peer : IsWindow c.peer_window
  pub global : IsI32 c.windows.global_window
  pub settings : IsValid c.remote_settings

unfoldable pub IsSound : Connection → Type 0
IsSound c = Sound c

module _ (b : ℕ) where
  pub remove-ids : (s : List (ℕ × StreamHandle)) (id : ℕ) → HaveIds b s → HaveIds b (remove s id)
  unfolding HaveIds
  remove-ids [] id h = h
  remove-ids ((k, x) ∷ s) id h =
      let rest = remove-ids s id h.1 in
      elim (Bool-cases (k == id)) [ inl e ↦ rw e rest | inr e ↦ rw e (h.0, rest) ]

  pub modify-ids :
      (f : StreamHandle → StreamHandle) (s : List (ℕ × StreamHandle)) (id : ℕ)
      → HaveIds b s
      → HaveIds b (modify f s id)
  unfolding HaveIds
  modify-ids f [] id h = h
  modify-ids f ((k, x) ∷ s) id h = (h.0, modify-ids f s id h.1)

  pub deliver-ids :
      (s : List (ℕ × StreamHandle)) (g : List (ℕ × ℤ)) → HaveIds b s → HaveIds b (deliver s g)
  deliver-ids s [] h = h
  deliver-ids s ((id, a) ∷ g) h = deliver-ids (modify _ s id) g (modify-ids _ s id h)

  pub reset_stream-ids :
      (streams : List (ℕ × StreamHandle)) (id : ℕ)
      → HaveIds b streams
      → HaveIds b (reset_stream streams id)
  unfolding reset_stream
  reset_stream-ids streams id h = grind (arith, remove-ids, modify-ids)

pub put_streams-IsSound :
    (c : Connection) (streams : List (ℕ × StreamHandle))
    → HaveIds c.biggest_open_stream streams
    → IsSound c
    → IsSound (record c { streams = streams })
unfolding IsSound
put_streams-IsSound c streams h s = record {
  ids = h;
  opened = s.opened;
  peer = s.peer;
  global = s.global;
  settings = s.settings;
}

module _ (out : Surroundings) where
  pub write_frame-IsSound :
      (c : Connection) (f : Frame) {c' : Connection}
      → write_frame out c f ≡ ok c'
      → IsSound c
      → IsSound c'
  unfolding write_frame IsSound
  write_frame-IsSound c f h s = ground arith

  reset_stream-IsSound :
      (c : Connection) (id : ℕ)
      → IsSound c
      → IsSound (record c { streams = reset_stream c.streams id })
  unfolding IsSound
  reset_stream-IsSound c id s =
      put_streams-IsSound c _ (reset_stream-ids c.biggest_open_stream c.streams id s.ids) s

  pub handle_possible_stream_error-IsSound :
      (c : Connection) (r : H2Result (Unit {0})) (id : ℕ) {c' : Connection}
      → handle_possible_stream_error out c r id ≡ ok c'
      → IsSound c
      → IsSound c'
  unfolding handle_possible_stream_error
  handle_possible_stream_error-IsSound c (ok _) id h s = ground arith
  handle_possible_stream_error-IsSound c (err (H2Error.connection code)) id h s = ground arith
  handle_possible_stream_error-IsSound c (err (H2Error.stream code)) id h s =
      grind (arith, reset_stream-IsSound, write_frame-IsSound)
  handle_possible_stream_error-IsSound c panic id h s = ground arith
