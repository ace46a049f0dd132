-- ===== src/H2/Connection/Accounts/Peer.antt =====
-- The window of the peer is what it was, less the bytes received, plus the room granted.
use qhttp.Base.{
  ℕ, ◌+◌, ◌≡◌, List, [], ◌∷◌, inl, inr, ok, err, panic, arith, length, if◌then◌else◌, >>=-ok, sym,
  ap, ◌∙◌, refl,
}
use qhttp.Base.Int.{pos}
use qhttp.H2.Error.{H2Result}
use qhttp.H2.Crates.{FrameType, same_type}
use qhttp.H2.Frame.{Frame}
use qhttp.H2.Frame.Data
use qhttp.H2.Frame.Headers.{HeadersFrame}
use qhttp.H2.Frame.Receive
use qhttp.H2.Connection.{Config, Connection, Surroundings}
use qhttp.H2.Connection.Requests.{
  go_on, ConnectionReq, frame, response, get_window, put_window, update_peer_window, stream_closing,
  stream_closed, give_to_peer, handle_conn_req,
}
use qhttp.H2.Connection.Opening.{handle_headers}
use qhttp.H2.Connection.Frames.{handle_data, handle_received}
use qhttp.H2.Connection.Loop.{
  Event, arrived, shutdown, tick, flush, asked, task_ended, step, main_loop,
}
use qhttp.H2.Connection.Core.{
  Core, core, write_frame-core, write_response-core, distribute-core, change_global_window-core,
}
use qhttp.H2.Connection.Core.Steps.{
  handle_data-core, handle_settings-core, handle_ping-core, handle_window_update-core, on_tick-core,
  on_shutdown-core, give_to_peer-core, close_stream-core,
}
use qhttp.H2.Connection.Core.Opening.{handle_headers-core}
use qhttp.H2.Connection.Accounts.{main_loop-split, handle_frame-split, received, granted, total}

-- The window goes from `w` to one that balances `took` against `gave`.
abbrev Balances : Connection → ℕ → ℕ → ℕ → Type 0
Balances c w took gave = (n : ℕ) × (c.peer_window ≡ pos n) × (n + took ≡ w + gave)

same : (c c' : Connection) (w : ℕ) → core c' ≡ core c → c.peer_window ≡ pos w → Balances c' w 0 0
same c c' w e p = (w, ap (λ (k : Core). k.peer) e ∙ p, refl)

module _ (config : Config) (out : Surroundings) where
  -- What the frame brings of a body.
  abbrev body : Receive.Received → ℕ
  body (Receive.data_frame f) = length f.content
  body r = 0

  convert-body :
      (f : Frame) {r : Receive.Received}
      → Receive.convert out.lib f.header.type f ≡ ok r
      → body r ≡ (if same_type f.header.type FrameType.data_frame then length f.payload else 0)
  unfolding Receive.convert Data.try_from
  convert-body f h = ground arith

  headers-peer :
      (c : Connection) (f : HeadersFrame) (following : List (H2Result Frame)) {c' : Connection}
      (w : ℕ)
      → handle_headers config out c f following ≡ ok (go_on c')
      → c.peer_window ≡ pos w
      → Balances c' w 0 0
  headers-peer c f following {c'} w h p =
      elim ((handle_headers-core config out c f following h).2) [
        | inl e ↦ same c c' w e p
        | inr o ↦ (w, ap (λ (k : Core). k.peer) o.after_it ∙ p, refl)
      ]

  received-peer :
      (c : Connection) (r : Receive.Received) (following : List (H2Result Frame)) {c' : Connection}
      (w : ℕ)
      → handle_received config out c r following ≡ ok (go_on c')
      → c.peer_window ≡ pos w
      → Balances c' w (body r) 0
  unfolding handle_received
  received-peer c (Receive.data_frame f) following w h p =
      let (c₁, q, r) = >>=-ok (handle_data c f) _ h in
      let (n, e, k) = handle_data-core c f w q p in (n, ground arith, ground arith)
  received-peer c (Receive.headers f) following w h p = headers-peer c f following w h p
  received-peer c (Receive.priority f) following w h p = (w, ground arith, refl)
  received-peer c (Receive.rst_stream f) following w h p = (w, ground arith, refl)
  received-peer c (Receive.settings f) following w h p =
      (w, grind (arith, handle_settings-core), refl)
  received-peer c (Receive.ping f) following w h p = (w, grind (arith, handle_ping-core), refl)
  received-peer c (Receive.go_away f) following w h p = (w, ground arith, refl)
  received-peer c (Receive.window_update f) following w h p =
      (w, grind (arith, handle_window_update-core), refl)

  conn_req-peer :
      (c : Connection) (req : ConnectionReq) {c' : Connection} (w : ℕ)
      → handle_conn_req out c req ≡ ok (go_on c')
      → c.peer_window ≡ pos w
      → Balances c' w 0 (granted (asked req))
  unfolding handle_conn_req
  conn_req-peer c (frame f) w h p = (w, grind (arith, write_frame-core), refl)
  conn_req-peer c (response r id e) w h p = (w, grind (arith, write_response-core), refl)
  conn_req-peer c (get_window id a) w h p = (w, grind (arith, distribute-core), refl)
  conn_req-peer c (put_window a) w h p =
      (w, grind (arith, change_global_window-core, distribute-core), refl)
  conn_req-peer c (update_peer_window id a) w h p =
      let (c₁, q, r) = >>=-ok (give_to_peer out c id a) _ h in
      let (n, e, k) = give_to_peer-core config out c id a w q p in
      (w + n, ground arith, ground arith)
  conn_req-peer c (stream_closing id e) w h p =
      let (n, k, l, m) = close_stream-core config out c id e h in (w, ground arith, refl)
  conn_req-peer c (stream_closed id) w h p = (w, ground arith, refl)

  -- A step takes what it receives off the window of the peer and adds what it grants.
  step-peer :
      (c : Connection) (e : Event) {c' : Connection} (w : ℕ)
      → step config out c e ≡ ok (go_on c')
      → c.peer_window ≡ pos w
      → Balances c' w (received e) (granted e)
  unfolding step
  step-peer c (arrived now (ok f) following) {c'} w h p =
      let c₁ : Connection = record c { last_frame_received = now } in
      let (r, q, h₁) = handle_frame-split config out c₁ f following h in
      rw (sym (convert-body f q)) (received-peer c₁ r following w h₁ p)
  step-peer c (arrived now (err e) following) w h p = cc
  step-peer c (arrived now panic following) w h p = cc
  step-peer c (shutdown now) w h p = (w, ground (arith, on_shutdown-core config out c now h), refl)
  step-peer c (tick now) w h p = (w, ground (arith, on_tick-core config out c now h), refl)
  step-peer c (flush taken) w h p = (w, ground arith, refl)
  step-peer c (asked req) w h p = conn_req-peer c req w h p
  step-peer c (task_ended id) w h p = (w, ground arith, refl)

  -- Along a run that began with a window of the peer that is not negative, and that has not ended:
  -- the window is still not negative, and with the bytes of all DATA frames received it makes up
  -- what it was at the beginning and all the room that the streams granted.
  pub main_loop-peer :
      (events : List Event) (c : Connection) {c' : Connection} (w : ℕ)
      → main_loop config out c events ≡ ok (go_on c')
      → c.peer_window ≡ pos w
      → (n : ℕ) × (c'.peer_window ≡ pos n) × (n + total received events ≡ w + total granted events)
  unfolding main_loop
  main_loop-peer [] c w h p = (w, ground arith, refl)
  main_loop-peer (e ∷ events) c w h p =
      let (c₁, q, h₁) = main_loop-split config out e events c h in
      let (n, p₁, b) = step-peer c e w q p in
      let (m, p₂, d) = main_loop-peer events c₁ n h₁ p₁ in (m, p₂, omega (arith, b, d))
