-- ===== src/H2/Connection/Streams.antt =====
-- The handles of the streams: the map `streams` of the connection in src/http2/mod.rs, the methods
-- of `StreamHandle` in src/http2/stream.rs, and the errors that concern one stream only.
use qhttp.Base.{
  ℕ, Bool, true, false, List, [], ◌∷◌, ◌++◌, Option, none, some, ok, err, panic, ◌==◌,
  if◌then◌else◌,
}
use qhttp.Base.Int.{ℤ}
use qhttp.H2.Error.{ErrorCode, H2Error, H2Result}
use qhttp.H2.Frame.Data.{DataFrame}
use qhttp.H2.Frame.RstStream
use qhttp.H2.Frame.Wire.{internal_error}
use qhttp.H2.Connection.{
  StreamHandle, StreamReq, window_update, available_window, request_body, reset, Connection,
  ConnResult, Surroundings, stop, write_frame,
}

abbrev Handles : Type 0
Handles = List (ℕ × StreamHandle)

-- `HashMap::get`
abbrev pub get : Handles → ℕ → Option StreamHandle
get [] id = none
get ((key, handle) ∷ rest) id = if key == id then some handle else get rest id

-- `HashMap::remove`
abbrev pub remove : Handles → ℕ → Handles
remove [] id = []
remove ((key, handle) ∷ rest) id =
    if key == id then remove rest id else (key, handle) ∷ remove rest id

-- `HashMap::insert`, which replaces what the key had.
abbrev pub insert : Handles → ℕ → StreamHandle → Handles
insert streams id handle = (id, handle) ∷ remove streams id

-- What is done through `get_mut`.
abbrev pub modify : (StreamHandle → StreamHandle) → Handles → ℕ → Handles
modify f [] id = []
modify f ((key, handle) ∷ rest) id =
    (key, if key == id then f handle else handle) ∷ modify f rest id

abbrev pub has : Handles → ℕ → Bool
has streams id = elim (get streams id) [ none ↦ false | some handle ↦ true ]

abbrev pub is_listening : Handles → ℕ → Bool
is_listening streams id = elim (get streams id) [ none ↦ false | some handle ↦ handle.listening ]

-- `tx.send(req)`, which fails when the receiver is gone.
abbrev pub send : StreamHandle → StreamReq → Option StreamHandle
send handle req =
    if handle.listening then some (record handle { sent = handle.sent ++ (req ∷ []) }) else none

abbrev stream_closed : H2Error
stream_closed = H2Error.stream ErrorCode.stream_closed

abbrev or_closed : Option StreamHandle → H2Result StreamHandle
or_closed none = err stream_closed
or_closed (some handle) = ok handle

-- `StreamHandle::update_window`
unfoldable pub update_window : StreamHandle → ℤ → H2Result StreamHandle
update_window handle amount = or_closed (send handle (window_update amount))

-- `StreamHandle::send_data`
unfoldable pub send_data : StreamHandle → DataFrame → H2Result StreamHandle
send_data handle frame = or_closed (send handle (request_body frame))

-- The messages of `give_from_global_window`; `distribute_window` of H2/Flow checks the channels.
abbrev pub deliver : Handles → List (ℕ × ℤ) → Handles
deliver streams [] = streams
deliver streams ((id, amount) ∷ gifts) =
    deliver (modify (λ h. record h { sent = h.sent ++ (available_window amount ∷ []) }) streams id)
      gifts

-- The `if let Some(stream) = self.streams.get_mut(&id)` of `handle_possible_stream_error`.
unfoldable pub reset_stream : Handles → ℕ → Handles
reset_stream streams id = elim (get streams id) [
  | none ↦ streams
  | some handle ↦ elim (send (record handle { closed = true }) reset) [
    | none ↦ remove streams id
    | some handle' ↦ modify (λ _. handle') streams id
  ]
]

module _ (out : Surroundings) where
  -- `handle_possible_stream_error`
  unfoldable pub handle_possible_stream_error :
      Connection → H2Result (Unit {0}) → ℕ → ConnResult Connection
  handle_possible_stream_error c (ok _) id = ok c
  handle_possible_stream_error c (err (H2Error.connection code)) id =
      stop c (H2Error.connection code)
  handle_possible_stream_error c (err (H2Error.stream code)) id =
      let c' : Connection = record c { streams = reset_stream c.streams id } in
      if id == 0
      then stop c internal_error
      else write_frame out c'
          (RstStream.into_frame (record { stream = id; error_code = some code }))
  handle_possible_stream_error c panic id = panic
