-- ===== src/H2/Connection/Core/Opening.antt =====
-- What a HEADERS frame does to the counts of the streams.
use qhttp.Base.{
  ℕ, suc, ◌%◌, ◌<◌, Bool, true, false, not, ◌&&◌, List, [], ◌∷◌, ◌++◌, ◌≡◌, ◌⊎◌, inl, inr, refl,
  sym, ap, ◌∙◌, if-cases, ok, err, panic, arith, >>=-ok, ltb, leb, ◌==◌, if◌then◌else◌, refuse_if,
  ◌>>=◌,
}
use qhttp.H2.Error.{H2Result}
use qhttp.H2.Frame.{Frame}
use qhttp.H2.Frame.Headers.{HeadersFrame}
use qhttp.H2.Frame.Wire.{protocol_error}
use qhttp.H2.Connection.{Config, Connection, ConnResult, Surroundings, Request, Started, at}
use qhttp.H2.Connection.Streams.{has}
use qhttp.H2.Connection.ReadRequest.{read_request}
use qhttp.H2.Connection.Requests.{Next, go_on}
use qhttp.H2.Connection.Opening.{
  store, initial_windows, start_stream, at_limit, serve, open_stream, handle_headers, refuse_stream,
  read_continuations,
}
use qhttp.H2.Connection.Core.{
  Core, core, store-core, handle_possible_stream_error-core, read_request-core,
  read_continuations-core, refuse_stream-core,
}

-- From `before` to `after`, one stream was started.
pub record Opens (id : ℕ) (before after : Core) : Type 0 where
  pub running : before.pending ≡ false
  pub stream : Started
  pub is_stream : stream.id ≡ id
  pub after_it : after ≡ record before {
    biggest = if ltb before.biggest id then id else before.biggest;
    opened = suc before.opened;
    started = before.started ++ (stream ∷ []);
  }

start_stream-core :
    (c : Connection) (id : ℕ) (end_stream : Bool) (request : Request) {c' : Connection}
    → start_stream c id end_stream request ≡ ok (go_on c')
    → c.pending_gracefull_shutdown ≡ false
    → Opens id (core c) (core c')
unfolding start_stream
start_stream-core c id end_stream request h p =
    let (w, q, r) = >>=-ok (initial_windows c) _ h in
    record {
      running = p;
      stream = record {
        id = id;
        window = w.0;
        peer_window = w.1;
        request = request;
        end_stream = end_stream;
      };
      is_stream = refl;
      after_it = ground arith;
    }

module _ (config : Config) (out : Surroundings) where
  abbrev pub StartsOneOrNone : ℕ → Connection → Connection → Type 0
  StartsOneOrNone id c c' = (core c' ≡ core c) ⊎ Opens id (core c) (core c')

  serve-core :
      (c : Connection) (id : ℕ) (end_stream : Bool) (r : H2Result Request) {c' : Connection}
      → serve config out c id end_stream r ≡ ok (go_on c')
      → c.pending_gracefull_shutdown ≡ false
      → StartsOneOrNone id c c'
  unfolding serve
  serve-core c id end_stream (ok request) h p = inr (start_stream-core c id end_stream request h p)
  serve-core c id end_stream (err e) h p = inl (grind (arith, handle_possible_stream_error-core))
  serve-core c id end_stream panic h p = cc

  open_stream-core :
      (c : Connection) (id : ℕ) (end_stream : Bool) {c' : Connection}
      → open_stream config out c id end_stream ≡ ok (go_on c')
      → StartsOneOrNone id c c'
  unfolding open_stream
  open_stream-core c id end_stream h =
      let refuse = refuse_stream config out c id in
      let full = at_limit config.settings.max_concurrent_streams c.open_streams in
      let answer : ConnResult Next =
        read_request out c >>= λ r. serve config out r.0 id end_stream r.1 in
      elim (if-cases c.pending_gracefull_shutdown refuse (if full then refuse else answer) h) [
        | inl (_, p) ↦ inl (refuse_stream-core config out c id p)
        | inr (running, p) ↦ elim (if-cases full refuse answer p) [
          | inl (_, q) ↦ inl (refuse_stream-core config out c id q)
          | inr (_, q) ↦
              (let (r, d, e) = >>=-ok (read_request out c) _ q in
                let same = read_request-core out c d in
                rw (sym same) (
                  serve-core r.0 id end_stream r.1 e (ap (λ (k : Core). k.pending) same ∙ running)))
        ]
      ]

  -- A HEADERS frame that does not end the loop is of an odd stream that is either known or above
  -- the biggest, and it starts one stream or none.
  pub handle_headers-core :
      (c : Connection) (f : HeadersFrame) (following : List (H2Result Frame)) {c' : Connection}
      → handle_headers config out c f following ≡ ok (go_on c')
      → (f.stream % 2 ≡ 1)
        × ((has c.streams f.stream ≡ true) ⊎ (c.biggest_open_stream < f.stream))
        × StartsOneOrNone f.stream c c'
  unfolding handle_headers
  handle_headers-core c f following h =
      let odd = f.stream % 2 == 0 in
      let old = not (has c.streams f.stream) && leb f.stream c.biggest_open_stream in
      let (u, p, q) = >>=-ok (at c (refuse_if odd protocol_error)) _ h in
      let (u', p', q') = >>=-ok (at c (refuse_if old protocol_error)) _ q in
      let (c₁, p₁, q₁) = >>=-ok (store c f.fragment) _ q' in
      let (c₂, p₂, q₂) =
        >>=-ok
          (if f.end_headers then ok c₁ else read_continuations config out c₁ f.stream following) _
          q₁ in
      let o = open_stream-core c₂ f.stream f.end_stream q₂ in
      let e : core c₂ ≡ core c = grind (arith, store-core, read_continuations-core) in
      (ground arith, ground arith, rw (sym e) o)
