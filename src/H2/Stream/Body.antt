-- ===== src/H2/Stream/Body.antt =====
-- Sending the body of a response: `send_body` of src/http2/stream.rs. The chunk is what
-- `body_buffer` holds unread; Buffer models the buffer itself.
use qhttp.Base.{
  ℕ, zero, suc, ◌+◌, Bool, true, false, ◌&&◌, List, [], ◌∷◌, ok, panic, ltb, if◌then◌else◌, length,
  take, drop, ◌>>=◌,
}
use qhttp.Base.Int.{ℤ, pos, negsuc, ltb_ℤ, leb_ℤ, ◌-ℤ◌}
use qhttp.H2.Error.{ErrorCode, H2Error}
use qhttp.H2.Crates.{Crates}
use qhttp.H2.Settings.{to_i32}
use qhttp.H2.Frame.Data
use qhttp.H2.Connection.Requests.{ConnectionReq, frame, get_window}
use qhttp.H2.Stream.{Stream, StreamResult, Input, at, fail, tell, main_select}

abbrev pub stream_error : H2Error
stream_error = H2Error.stream ErrorCode.internal_error

-- A `get_window` for as much of the needed window as the stream's own window has; the stream's
-- window is reduced at once. Both are positive, so the subtractions stay in range.
unfoldable pub ask_for_window : Stream → ℤ → StreamResult (Stream × ℤ)
ask_for_window s needed =
    if ltb_ℤ (pos 0) needed && ltb_ℤ (pos 0) s.window
    then (let amount = if leb_ℤ needed s.window then needed else s.window in
        tell (record s { window = s.window -ℤ amount }) (get_window s.id amount) >>= λ s'.
        ok (s', needed -ℤ amount))
    else ok (s, needed)

-- A round of the inner loop: a part of the chunk is sent, or an input is waited for.
pub data Round : Type 0 where
  part_sent : Stream → ℤ → List ℕ → Round
  idle : Stream → ℤ → Round

-- The end of the inner loop: what is left of the inputs, or the stream that waits for the next one.
pub data Sending : Type 0 where
  all_sent : Stream → List Input → Sending
  waiting : Stream → ℤ → List ℕ → Sending

-- What the outer loop of `send_body` finds ready: an input, or the result of reading the body.
pub data BodyEvent : Type 0 where
  selected : Input → BodyEvent
  chunk_read : List ℕ → List Input → BodyEvent
  read_failed : BodyEvent

-- How many bytes of a chunk go with an acquired window.
abbrev pub part_size : ℕ → List ℕ → ℕ
part_size window chunk = if ltb (length chunk) window then length chunk else window

module _ (lib : Crates) where
  abbrev pub data_frame : ℕ → Bool → List ℕ → ConnectionReq
  data_frame id end_stream content =
      frame
        (Data.into_frame lib (record { stream = id; end_stream = end_stream; content = content }))

  -- A DATA frame of `amount` bytes of the chunk.
  unfoldable pub send_part : Stream → ℕ → List ℕ → StreamResult Stream
  send_part s amount chunk =
      tell (record s { available = s.available -ℤ pos amount })
        (data_frame s.id false (take amount chunk))

  unfoldable pub use_window : Stream → ℤ → List ℕ → (available : ℤ) → StreamResult Round
  use_window s needed chunk (pos (suc n)) =
      let amount = part_size (suc n) chunk in
      send_part s amount chunk >>= λ s'. ok (part_sent s' needed (drop amount chunk))
  use_window s needed chunk (pos zero) = ok (idle s needed)
  use_window s needed chunk (negsuc n) = ok (idle s needed)

  unfoldable pub send_round : Stream → ℤ → List ℕ → StreamResult Round
  send_round s needed chunk =
      ask_for_window s needed >>= λ r. use_window r.0 r.1 chunk (r.0).available

  -- The inner loop, until the chunk is sent; `fuel` bounds the rounds.
  unfoldable pub send_chunk :
      (fuel : ℕ) → Stream → (needed : ℤ) → (chunk : List ℕ) → List Input → StreamResult Sending
  send_chunk fuel s needed [] inputs = ok (all_sent s inputs)
  send_chunk zero s needed (b ∷ bytes) inputs = panic
  send_chunk (suc fuel) s needed (b ∷ bytes) inputs = send_round s needed (b ∷ bytes) >>= elim [
    | part_sent s' needed' rest ↦ send_chunk fuel s' needed' rest inputs
    | idle s' needed' ↦ elim inputs [
      | [] ↦ ok (waiting s' needed' (b ∷ bytes))
      | input ∷ inputs' ↦
          main_select s' input >>= λ s''. send_chunk fuel s'' needed' (b ∷ bytes) inputs'
    ]
  ]

  -- A chunk that was read from the body; the last one is empty and ends the stream.
  unfoldable pub send_next : Stream → List ℕ → List Input → StreamResult Sending
  send_next s [] inputs = tell s (data_frame s.id true []) >>= λ s'. ok (all_sent s' inputs)
  send_next s (b ∷ bytes) inputs = at s (to_i32 (length (b ∷ bytes)) stream_error) >>= λ amount.
      send_chunk (suc (length (b ∷ bytes) + length inputs)) s (pos amount) (b ∷ bytes) inputs

  -- `send_body`: whether the body was sent to its end, or more events are waited for. A chunk comes
  -- with the inputs that are there while it is sent.
  unfoldable pub send_body : Stream → List BodyEvent → StreamResult (Stream × Bool)
  send_body s [] = ok (s, false)
  send_body s (selected i ∷ events) = main_select s i >>= λ s'. send_body s' events
  send_body s (read_failed ∷ events) = fail s stream_error
  send_body s (chunk_read [] inputs ∷ events) =
      send_next s [] inputs
      >>= elim [ all_sent s' rest ↦ ok (s', true) | waiting s' n c ↦ ok (s', false) ]
  send_body s (chunk_read (b ∷ bytes) inputs ∷ events) =
      send_next s (b ∷ bytes) inputs
      >>= elim [ all_sent s' rest ↦ send_body s' events | waiting s' needed left ↦ ok (s', false) ]
