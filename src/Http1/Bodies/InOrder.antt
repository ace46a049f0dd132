-- ===== src/Http1/Bodies/InOrder.antt =====
-- The reads of a body: the polls of `BackgroundRead` and the connection that serves them.
use qhttp.Base.{
  ℕ, ◌+◌, ◌≡◌, ◌≤◌, ◌<◌, inl, inr, refl, ap, subst, ◌∙◌, sym, Bool-cases, true, List, [], ◌∷◌, ◌++◌,
  append_assoc, Option, ok, arith, ◌==◌, length, length-append, IoError, All,
}
use qhttp.Buffer.{Buffer}
use qhttp.Buffer.Contents.{contents}
use qhttp.H2.Reader.{Arrival, bytes, failed}
use qhttp.H2.Reader.Fill.{all_bytes}
use qhttp.Http1.Writer.{Http, write_continue_inner}
use qhttp.Http1.Bodies.{Connection, BackgroundRead, read_body, read_bodies}
use qhttp.Http1.Bodies.Order.{ahead, IsStopped, IsReady}
use qhttp.Http1.Bodies.Service.{handle_background_read_req-Fed}
use qhttp.Http1.Bodies.Polls.{
  InUse, unread, Puts, poll_read-unread, poll_read-sends, poll_read-came,
}

-- All bytes of the rooms.
abbrev pub total : List ℕ → ℕ
total [] = 0
total (room ∷ rooms) = room + total rooms

module _ (fails : (written : List ℕ) → Option IoError) (http : Http) where
  open http use {Version}

  -- The connection can ask for the body, if it is to.
  abbrev pub CanAsk : Version → Connection → Type 0
  CanAsk version c =
      c.expects_continue ≡ true
      → (written : List ℕ) × (write_continue_inner fails http version c.written ≡ ok written)

  -- A read puts some bytes of those ahead of the reader and the connection.
  record Read (version : Version) (room : ℕ) (r : BackgroundRead) (c : Connection) : Type 0 where
    reader : BackgroundRead
    connection : Connection
    put : List ℕ
    result : read_body fails http version room r c ≡ ok (reader, connection, put)
    in_use : InUse reader
    prepared : IsReady connection
    can_ask : CanAsk version connection
    puts : Puts (unread r.buffer ++ ahead c) (unread reader.buffer ++ ahead connection) put room

  no_bytes : (xs : List ℕ) → length xs ≡ 0 → xs ≡ []
  no_bytes [] e = refl
  no_bytes (x ∷ xs) e = absurd (omega (arith, e))

  stopped_bytes : (arrivals : List Arrival) → IsStopped arrivals → all_bytes arrivals ≡ []
  stopped_bytes [] h = refl
  stopped_bytes (bytes piece ∷ rest) h = absurd h
  stopped_bytes (failed e ∷ rest) h = refl

  Read-unread :
      (version : Version) (room : ℕ) (r : BackgroundRead) (c : Connection)
      → (h : InUse r) → IsReady c
      → CanAsk version c
      → 0 < room
      → 0 < length (contents h.body)
      → Read version room r c
  unfolding read_body
  Read-unread version room r c h ready_connection can_ask positive there =
      let (r', put, q, u, p) = poll_read-unread r room h there positive in
      record {
        reader = r';
        connection = c;
        put = put;
        result = rw q refl;
        in_use = u;
        prepared = ready_connection;
        can_ask = can_ask;
        puts = record {
          in_order =
              sym (append_assoc put (unread r'.buffer) (ahead c))
              ∙ ap (λ (xs : List ℕ). xs ++ ahead c) p.in_order
              ∙ ap (λ (b : Option Buffer). unread b ++ ahead c) (sym h.present);
          at_least = p.at_least;
          at_most = p.at_most;
        };
      }

  Read-served :
      (version : Version) (room : ℕ) (r : BackgroundRead) (c : Connection)
      → (h : InUse r) → IsReady c
      → CanAsk version c
      → 0 < room
      → room ≤ length (ahead c)
      → length (contents h.body) ≡ 0
      → Read version room r c
  unfolding read_body
  Read-served version room r c h k can_ask positive enough empty =
      let sends = poll_read-sends r room h empty in
      elim (handle_background_read_req-Fed fails http version c h.body room k h.valid positive
        (omega (arith, empty, h.some_room))) [
          | inr (o, e, inl (stopped, less)) ↦ absurd (
              omega (
                arith,
                less,
                enough,
                length-append (contents c.buffer) (all_bytes c.arrivals),
                ap length (stopped_bytes c.arrivals stopped),
              ))
          | inr (o, e, inr (asked, x, w)) ↦ absurd (let (written, q) = can_ask asked in cc)
          | inl (c₁, c', body, e, a, f, same, quiet) ↦
              let (r', put, q, u, p) =
                poll_read-came body room f.valid (omega (arith, f.room, h.some_room))
                  (omega (arith, f.at_least)) positive in
              record {
                reader = r';
                connection = c';
                put = put;
                result = rw (sends, e, q) refl;
                in_use = u;
                prepared = f.prepared;
                can_ask = λ asked. cc;
                puts = record {
                  in_order =
                      sym (append_assoc put (unread r'.buffer) (ahead c'))
                      ∙ ap (λ (xs : List ℕ). xs ++ ahead c') p.in_order
                      ∙ f.in_order
                      ∙ ap (λ (xs : List ℕ). contents h.body ++ xs) same
                      ∙ ap (λ (b : Option Buffer). unread b ++ ahead c) (sym h.present);
                  at_least = p.at_least;
                  at_most = p.at_most;
                };
              }
        ]

  read_body_lem :
      (version : Version) (room : ℕ) (r : BackgroundRead) (c : Connection)
      → InUse r
      → IsReady c
      → CanAsk version c
      → 0 < room
      → room ≤ length (unread r.buffer ++ ahead c)
      → Read version room r c
  read_body_lem version room r c h k can_ask positive enough =
      elim (Bool-cases (length (contents h.body) == 0)) [
        | inl e ↦
            let empty : length (contents h.body) ≡ 0 = ground (arith, e) in
            let same : unread r.buffer ≡ [] = rw (h.present) (no_bytes (contents h.body) empty) in
            Read-served version room r c h k can_ask positive
              (subst (λ (xs : List ℕ). room ≤ length (xs ++ ahead c)) same enough) empty
        | inr e ↦ Read-unread version room r c h k can_ask positive (ground (arith, e))
      ]

  -- A body is read in order: reads with rooms that are not empty, which ask for no more bytes than are
  -- ahead (unread in the reader, unread in the connection, or still to arrive before the peer ends or
  -- fails), all succeed, and what they put are the next bytes, at least one for each read and no more
  -- than it has room for. The reader has a buffer with room for a byte, so has the connection, and it
  -- can ask for the body, if it is to.
  pub read_bodies-in_order :
      (version : Version) (rooms : List ℕ) (r : BackgroundRead) (c : Connection)
      → InUse r
      → IsReady c
      → CanAsk version c
      → All (λ room. 0 < room) rooms
      → total rooms ≤ length (unread r.buffer ++ ahead c)
      → (r' : BackgroundRead) × (c' : Connection) × (put : List ℕ) × (read_bodies fails http version
            rooms r c
          ≡ ok (r', c', put))
        × (put ++ (unread r'.buffer ++ ahead c') ≡ unread r.buffer ++ ahead c)
        × (length rooms ≤ length put)
        × (length put ≤ total rooms)
  unfolding read_bodies
  read_bodies-in_order version [] r c h k can_ask positive enough =
      (r, c, [], refl, refl, omega arith, omega arith)
  read_bodies-in_order version (room ∷ rooms) r c h k can_ask positive enough =
      let one = read_body_lem version room r c h k can_ask positive.0 (omega (arith, enough)) in
      let left : List ℕ = unread one.reader.buffer ++ ahead one.connection in
      let size : length one.put + length left ≡ length (unread r.buffer ++ ahead c) =
        sym (length-append one.put left) ∙ ap length one.puts.in_order in
      let (r', c', put, q, o, least, most) =
        read_bodies-in_order version rooms one.reader one.connection one.in_use one.prepared
          one.can_ask positive.1 (omega (arith, size, enough, one.puts.at_most)) in
      (
        r',
        c',
        one.put ++ put,
        rw (one.result, q) refl,
        append_assoc one.put put (unread r'.buffer ++ ahead c')
            ∙ ap (λ (xs : List ℕ). one.put ++ xs) o
            ∙ one.puts.in_order,
        omega (arith, least, length-append one.put put, one.puts.at_least),
        omega (arith, most, length-append one.put put, one.puts.at_most),
      )
