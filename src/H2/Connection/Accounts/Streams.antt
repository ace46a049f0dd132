-- ===== src/H2/Connection/Accounts/Streams.antt =====
-- The count of the open streams: those started, less those that closed.
use qhttp.Base.{
  ℕ, suc, ◌+◌, ◌≡◌, ◌<◌, Bool, true, false, List, [], ◌∷◌, ◌++◌, inl, inr, ok, err, panic, arith,
  length, length-append, refl,
}
use qhttp.H2.Error.{H2Result}
use qhttp.H2.Frame.{Frame}
use qhttp.H2.Frame.Receive
use qhttp.H2.Connection.{Config, Connection, Surroundings, Started}
use qhttp.H2.Connection.Requests.{
  go_on, ConnectionReq, frame, response, get_window, put_window, update_peer_window, stream_closing,
  stream_closed, give_to_peer, handle_conn_req,
}
use qhttp.H2.Connection.Frames.{handle_received, handle_data}
use qhttp.H2.Connection.Loop.{
  Event, arrived, shutdown, tick, flush, asked, task_ended, step, main_loop,
}
use qhttp.H2.Connection.Core.{
  core, write_frame-core, write_response-core, distribute-core, change_global_window-core,
}
use qhttp.H2.Connection.Core.Steps.{
  handle_settings-core, handle_ping-core, handle_window_update-core, on_tick-core, on_shutdown-core,
  close_stream-core,
}
use qhttp.H2.Connection.Core.Opening.{handle_headers-core}
use qhttp.H2.Connection.Accounts.{main_loop-split, handle_frame-split, closings, total}

-- The core without the window of the peer.
pub record Counts : Type 0 where
  pub opened : ℕ
  pub pending : Bool
  pub started : List Started

abbrev pub counts : Connection → Counts
counts c = record {
  opened = c.open_streams;
  pending = c.pending_gracefull_shutdown;
  started = c.started;
}

-- What an event with `k` closings does to the counts, if the loop goes on.
pub data Change (k : ℕ) (before after : Counts) : Type 0 where
  kept : k ≡ 0 → after ≡ before → Change k before after
  opens :
      k ≡ 0
      → before.pending ≡ false
      → (s : Started)
      → after ≡ record before { opened = suc before.opened; started = before.started ++ (s ∷ []) }
      → Change k before after
  closes :
      k ≡ 1
      → (n : ℕ) → before.opened ≡ suc n
      → (before.pending ≡ true → 0 < n)
      → after ≡ record before { opened = n }
      → Change k before after
  shuts :
      k ≡ 0 → 0 < before.opened → after ≡ record before { pending = true } → Change k before after

same : (c c' : Connection) → core c' ≡ core c → Change 0 (counts c) (counts c')
same c c' e = kept refl (ground (arith, e))

module _ (config : Config) (out : Surroundings) where
  received-Change :
      (c : Connection) (r : Receive.Received) (following : List (H2Result Frame)) {c' : Connection}
      → handle_received config out c r following ≡ ok (go_on c')
      → Change 0 (counts c) (counts c')
  unfolding handle_received handle_data
  received-Change c (Receive.data_frame f) following h = kept refl (ground arith)
  received-Change c (Receive.headers f) following {c'} h =
      elim ((handle_headers-core config out c f following h).2) [
        | inl e ↦ same c c' e
        | inr o ↦ opens refl o.running o.stream (ground (arith, o.after_it))
      ]
  received-Change c (Receive.priority f) following h = kept refl (ground arith)
  received-Change c (Receive.rst_stream f) following h = kept refl (ground arith)
  received-Change c (Receive.settings f) following h =
      kept refl (grind (arith, handle_settings-core))
  received-Change c (Receive.ping f) following h = kept refl (grind (arith, handle_ping-core))
  received-Change c (Receive.go_away f) following h = cc
  received-Change c (Receive.window_update f) following h =
      kept refl (grind (arith, handle_window_update-core))

  conn_req-Change :
      (c : Connection) (req : ConnectionReq) {c' : Connection}
      → handle_conn_req out c req ≡ ok (go_on c')
      → Change (closings (asked req)) (counts c) (counts c')
  unfolding handle_conn_req give_to_peer
  conn_req-Change c (frame f) h = kept refl (grind (arith, write_frame-core))
  conn_req-Change c (response r id e) h = kept refl (grind (arith, write_response-core))
  conn_req-Change c (get_window id a) h = kept refl (grind (arith, distribute-core))
  conn_req-Change c (put_window a) h =
      kept refl (grind (arith, change_global_window-core, distribute-core))
  conn_req-Change c (update_peer_window id a) h = kept refl (grind (arith, write_frame-core))
  conn_req-Change c (stream_closing id e) h =
      let (n, k, l, m) = close_stream-core config out c id e h in
      closes refl n k m (ground (arith, l))
  conn_req-Change c (stream_closed id) h = kept refl (ground arith)

  pub step-Change :
      (c : Connection) (e : Event) {c' : Connection}
      → step config out c e ≡ ok (go_on c')
      → Change (closings e) (counts c) (counts c')
  unfolding step
  step-Change c (arrived now (ok f) following) h =
      let c₁ : Connection = record c { last_frame_received = now } in
      let (r, q, h₁) = handle_frame-split config out c₁ f following h in
      received-Change c₁ r following h₁
  step-Change c (arrived now (err e) following) h = cc
  step-Change c (arrived now panic following) h = cc
  step-Change c (shutdown now) h =
      let (k, l) = on_shutdown-core config out c now h in shuts refl l (ground (arith, k))
  step-Change c (tick now) h = kept refl (ground (arith, on_tick-core config out c now h))
  step-Change c (flush taken) h = kept refl (ground arith)
  step-Change c (asked req) h = conn_req-Change c req h
  step-Change c (task_ended id) h = kept refl (ground arith)

  Change-count :
      {k : ℕ} {b a : Counts}
      → Change k b a
      → a.opened + k + length b.started ≡ b.opened + length a.started
  Change-count (kept k e) = ground (arith, k, e)
  Change-count {b = b} (opens k p s e) = ground (arith, k, e, length-append b.started (s ∷ []))
  Change-count (closes k n o m e) = ground (arith, k, o, e)
  Change-count (shuts k o e) = ground (arith, k, e)

  -- Along a run that has not ended, the streams that are open are those that were, and those
  -- started since, less the closings that the tasks reported.
  pub main_loop-count :
      (events : List Event) (c : Connection) {c' : Connection}
      → main_loop config out c events ≡ ok (go_on c')
      → c'.open_streams + total closings events + length c.started
        ≡ c.open_streams + length c'.started
  unfolding main_loop
  main_loop-count [] c h = ground arith
  main_loop-count (e ∷ events) c {c'} h =
      let (c₁, q, h₁) = main_loop-split config out e events c h in
      omega (arith, Change-count (step-Change c e q), main_loop-count events c₁ h₁)
