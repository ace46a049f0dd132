-- ===== src/H2/Stream/Tests.antt =====
-- The theorems on streams at a response body of three bytes.
use qhttp.Base.{
  ℕ, ◌≡◌, ◌≢◌, ◌+◌, refl, Bool, true, false, List, [], ◌∷◌, ◌++◌, none, ok, err, panic, length,
}
use qhttp.Base.Int.{pos, checked_add, ◌+ℤ◌, ◌-ℤ◌}
use qhttp.H2.Crates.Examples.{crates}
use qhttp.H2.Frame.Data
use qhttp.H2.Frame.Data.{DataFrame}
use qhttp.H2.Connection.{available_window, request_body}
use qhttp.H2.Stream.{Stream, StreamResult, Input, req, main_select, handle_req, tell}
use qhttp.H2.Stream.Body.{
  Sending, all_sent, send_next, send_chunk, send_round, ask_for_window, use_window, send_part,
}
use qhttp.H2.Stream.Windows.{payloads, grants}
use qhttp.H2.Stream.Windows.Progress.{stream_of, unsent, ungranted, send_next-balance}
use qhttp.H2.Stream.Termination.{send_next-ne-panic}

abbrev small : Stream
small = record {
  id = 1;
  available = pos 0;
  window = pos 10;
  peer_window = pos 10;
  background = none;
  has_window_rx = false;
  connected = true;
  sent = [];
}

-- Two bytes of window are granted, and then five more.
abbrev granted_later : List Input
granted_later = req (available_window (pos 2)) ∷ req (available_window (pos 5)) ∷ []

abbrev sending : StreamResult Sending → Sending
sending (ok r) = r
sending (err failed) = all_sent small []
sending panic = all_sent small []

abbrev done : Sending
done = sending (send_next crates small (7 ∷ 8 ∷ 9 ∷ []) granted_later)

done_lem : send_next crates small (7 ∷ 8 ∷ 9 ∷ []) granted_later ≡ ok done
unfolding send_next send_chunk send_round ask_for_window use_window send_part tell main_select
    handle_req checked_add ◌+ℤ◌ ◌-ℤ◌ Data.into_frame
done_lem = refl

send_next-balance_example :
    (left : ℕ) × (sent : List ℕ) × ((stream_of done).available ≡ pos left)
    × (payloads (stream_of done).sent ≡ payloads small.sent ++ sent)
    × (sent ++ unsent done ≡ 7 ∷ 8 ∷ 9 ∷ [])
    × (left + length sent + ungranted done ≡ 0 + grants granted_later)
send_next-balance_example =
    send_next-balance crates small (7 ∷ 8 ∷ 9 ∷ []) granted_later 0 done done_lem refl
      (refl, (refl, tt))

-- All three bytes are sent, in two parts, and four bytes of the window are left.
done_test : ((stream_of done).available ≡ pos 4) × (payloads (stream_of done).sent ≡ 7 ∷ 8 ∷ 9 ∷ [])
unfolding send_next send_chunk send_round ask_for_window use_window send_part tell main_select
    handle_req checked_add ◌+ℤ◌ ◌-ℤ◌ Data.into_frame
done_test = (refl, refl)

send_next-ne-panic_example : send_next crates small (7 ∷ 8 ∷ 9 ∷ []) granted_later ≢ panic
send_next-ne-panic_example = send_next-ne-panic crates small (7 ∷ 8 ∷ 9 ∷ []) granted_later

-- The task of a stream does not look at the END_STREAM of a body.
end_stream_ignored :
    (s : Stream) (f : DataFrame) (end : Bool)
    → handle_req s (request_body f) ≡ handle_req s (request_body (record f { end_stream = end }))
unfolding handle_req
end_stream_ignored s f end = refl
