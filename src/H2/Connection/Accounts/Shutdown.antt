-- ===== src/H2/Connection/Accounts/Shutdown.antt =====
-- A graceful shutdown: after it no stream is started, and the loop ends with the last stream.
use qhttp.Base.{ℕ, ◌+◌, ◌≡◌, ◌≢◌, ◌≤◌, ◌<◌, true, List, [], ◌∷◌, ok, arith, length, none, ◌∙◌, refl}
use qhttp.H2.Connection.{Config, StreamHandle, Connection, Surroundings}
use qhttp.H2.Connection.Streams.{modify}
use qhttp.H2.Connection.Requests.{go_on, leave, stream_closing, close_stream, handle_conn_req}
use qhttp.H2.Connection.Loop.{Event, shutdown, asked, step, main_loop}
use qhttp.H2.Connection.Core.Steps.{on_shutdown-core}
use qhttp.H2.Connection.Accounts.{main_loop-split, closings, total}
use qhttp.H2.Connection.Accounts.Streams.{
  Counts, counts, Change, kept, opens, closes, shuts, step-Change,
}

-- Shutting down with streams that are still open.
record Draining (c : Counts) : Type 0 where
  pending : c.pending ≡ true
  busy : 0 < c.opened

-- From a draining connection, `k` closings only lower the count, and not to 0.
Change-Draining :
    {k : ℕ} {b a : Counts}
    → Change k b a
    → Draining b
    → Draining a × (a.started ≡ b.started) × (a.opened + k ≡ b.opened)
Change-Draining (kept k e) d = ground (arith, k, e)
Change-Draining (opens k p s e) d = cc
Change-Draining (closes k n o m e) d = ground (arith, k, o, e, m d.pending)
Change-Draining (shuts k o e) d = ground (arith, k, e)

module _ (config : Config) (out : Surroundings) where
  run-Draining :
      (events : List Event) (c : Connection) {c' : Connection}
      → main_loop config out c events ≡ ok (go_on c')
      → Draining (counts c)
      → Draining (counts c')
        × (c'.started ≡ c.started)
        × (c'.open_streams + total closings events ≡ c.open_streams)
  unfolding main_loop
  run-Draining [] c h d = ground (arith, d.pending, d.busy)
  run-Draining (e ∷ events) c h d =
      let (c₁, q, h₁) = main_loop-split config out e events c h in
      let (d₁, s₁, o₁) = Change-Draining (step-Change config out c e q) d in
      let (d₂, s₂, o₂) = run-Draining events c₁ h₁ d₁ in (d₂, s₂ ∙ s₁, omega (arith, o₁, o₂))

  after_shutdown :
      (c : Connection) (now : ℕ) (events : List Event) {c' : Connection}
      → main_loop config out c (shutdown now ∷ events) ≡ ok (go_on c')
      → (0 < c'.open_streams)
        × (c'.started ≡ c.started)
        × (c'.open_streams + total closings events ≡ c.open_streams)
  unfolding step
  after_shutdown c now events {c'} h =
      let (c₁, q, h₁) = main_loop-split config out (shutdown now) events c h in
      let (e, o) = on_shutdown-core config out c now q in
      let (d, s, k) =
        run-Draining events c₁ {c' = c'} h₁
          (record { pending = ground (arith, e); busy = ground (arith, e) }) in
      (d.busy, ground (arith, e, s), ground (arith, e, k))

  -- After the signal for a graceful shutdown no stream is started while the loop runs, whatever the
  -- peer and the tasks do.
  pub shutdown-started :
      (c : Connection) (now : ℕ) (events : List Event) {c' : Connection}
      → main_loop config out c (shutdown now ∷ events) ≡ ok (go_on c')
      → c'.started ≡ c.started
  shutdown-started c now events h = let (b, s, k) = after_shutdown c now events h in s

  -- After the signal for a graceful shutdown, a loop in which as many streams have closed as were
  -- open is no longer running, whatever else happens in between.
  pub shutdown-ends :
      (c : Connection) (now : ℕ) (events : List Event) (c' : Connection)
      → c.open_streams ≤ total closings events
      → main_loop config out c (shutdown now ∷ events) ≢ ok (go_on c')
  shutdown-ends c now events c' enough h =
      let (busy, s, k) = after_shutdown c now events {c' = c'} h in omega (arith, busy, k, enough)

  abbrev pub all_close : List ℕ → List Event
  all_close [] = []
  all_close (id ∷ ids) = asked (stream_closing id none) ∷ all_close ids

  -- In a shutdown, when all the open streams close one after the other without an error, the loop
  -- leaves without an error at the last one.
  pub drain-leave :
      (ids : List ℕ) (c : Connection)
      → c.pending_gracefull_shutdown ≡ true
      → c.open_streams ≡ length ids
      → 0 < length ids
      → (c' : Connection) × (main_loop config out c (all_close ids) ≡ ok (leave c'))
  unfolding main_loop step handle_conn_req close_stream
  drain-leave [] c p o b = absurd (omega (arith, b))
  drain-leave (id ∷ []) c p o b = (record c { open_streams = 0 }, ground arith)
  drain-leave (id ∷ id' ∷ ids) c p o b =
      let mark : StreamHandle → StreamHandle = λ h. record h { closed = true } in
      let c₁ : Connection = record c {
        open_streams = length (id' ∷ ids);
        streams = modify mark c.streams id;
      } in
      let (c', h) = drain-leave (id' ∷ ids) c₁ p refl (ground arith) in (c', ground (arith, h))
