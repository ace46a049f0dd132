-- ===== src/Http1/Bodies/Polls.antt =====
-- The polls of the reader of a body, `BackgroundRead`.
use qhttp.Base.{
  ℕ, ◌≡◌, ◌≤◌, ◌<◌, refl, true, false, List, [], ◌++◌, Option, none, some, ok, arith, ltb, min,
  length, length-take, take, take-append-drop, slice,
}
use qhttp.Buffer.{Buffer, progress, available_for_read}
use qhttp.Buffer.Contents.{IsValid, contents, capacity, length-contents, as_ref-contents}
use qhttp.Buffer.Drain.{progress_lem}
use qhttp.H2.Reader.Fill.{available_for_read-contents}
use qhttp.Request.{ready, pending}
use qhttp.Http1.Bodies.{BackgroundRead, nothing, came, put_from, receive, exchange, poll_read}

-- A reader with a buffer that is valid and has room for a byte.
pub record InUse (r : BackgroundRead) : Type 0 where
  pub body : Buffer
  pub present : r.buffer ≡ some body
  pub valid : IsValid body
  pub some_room : 0 < capacity body

-- The unread bytes of a reader.
abbrev pub unread : Option Buffer → List ℕ
unread none = []
unread (some body) = contents body

-- `put` are the first bytes, at least one and at most `room`, of `all`; `rest` are the others.
pub record Puts (all rest put : List ℕ) (room : ℕ) : Type 0 where
  pub in_order : put ++ rest ≡ all
  pub at_least : 0 < length put
  pub at_most : length put ≤ room

put_from_lem :
    (r : BackgroundRead) (body : Buffer) (room : ℕ)
    → IsValid body
    → 0 < capacity body
    → 0 < length (contents body)
    → 0 < room
    → (r' : BackgroundRead) × (put : List ℕ) × (put_from r body room
        ≡ ok (record { reader = r'; put = put; poll = ready }))
      × InUse r'
      × Puts (contents body) (unread r'.buffer) put room
unfolding put_from
put_from_lem r body room v some_room there positive =
    let amount : ℕ = min (available_for_read body) room in
    let put : List ℕ = take amount (contents body) in
    let le : amount ≤ length (contents body) = omega (arith, available_for_read-contents v) in
    let positive_amount : 0 < amount =
      omega (arith, available_for_read-contents v, there, positive) in
    let size : length put ≡ amount = omega (arith, length-take amount (contents body), le) in
    let sliced : slice (contents body) 0 amount ≡ some put = ground (arith, le) in
    let (w, k, s) =
      progress_lem {b = body} amount v
        (omega (arith, le, length-contents v, v.in_range, v.small)) in
    (
      record r { buffer = some (progress body amount) },
      put,
      rw (as_ref-contents v, sliced) refl,
      record {
        body = progress body amount;
        present = refl;
        valid = w;
        some_room = omega (arith, s, some_room);
      },
      record {
        in_order = rw k (take-append-drop amount (contents body));
        at_least = omega (arith, size, positive_amount);
        at_most = omega (arith, size);
      },
    )

-- A poll of a reader with unread bytes.
pub poll_read-unread :
    (r : BackgroundRead) (room : ℕ)
    → (h : InUse r) → 0 < length (contents h.body)
    → 0 < room
    → (r' : BackgroundRead) × (put : List ℕ) × (poll_read r room true nothing
        ≡ ok (record { reader = r'; put = put; poll = ready }, none))
      × InUse r'
      × Puts (contents h.body) (unread r'.buffer) put room
unfolding poll_read
poll_read-unread r room h there positive =
    let r₀ : BackgroundRead = record r { buffer = some h.body } in
    let (r', put, q, u, p) = put_from_lem r₀ h.body room h.valid h.some_room there positive in
    let e : ltb 0 (available_for_read h.body) ≡ true =
      rw (available_for_read-contents h.valid) (ground (arith, there)) in
    (r', put, rw (h.present, e, q) refl, u, p)

abbrev pub waiting : BackgroundRead
waiting = record { buffer = none; has_receiver = true }

-- A poll without unread bytes sends the buffer.
pub poll_read-sends :
    (r : BackgroundRead) (room : ℕ)
    → (h : InUse r) → length (contents h.body) ≡ 0
    → poll_read r room true nothing
      ≡ ok (record { reader = waiting; put = []; poll = pending }, some (h.body, room))
unfolding poll_read exchange receive
poll_read-sends r room h empty =
    let e : ltb 0 (available_for_read h.body) ≡ false =
      rw (available_for_read-contents h.valid) (ground (arith, empty)) in
    rw (h.present, e) refl

-- The poll for the answer.
pub poll_read-came :
    (body : Buffer) (room : ℕ)
    → IsValid body
    → 0 < capacity body
    → 0 < length (contents body)
    → 0 < room
    → (r' : BackgroundRead) × (put : List ℕ) × (poll_read waiting room true (came (ok body))
        ≡ ok (record { reader = r'; put = put; poll = ready }, none))
      × InUse r'
      × Puts (contents body) (unread r'.buffer) put room
unfolding poll_read exchange receive
poll_read-came body room v some_room there positive =
    let (r', put, q, u, p) =
      put_from_lem (record { buffer = none; has_receiver = true }) body room v some_room there
        positive in
    let e : ltb 0 (available_for_read body) ≡ true =
      rw (available_for_read-contents v) (ground (arith, there)) in
    (r', put, rw (e, q) refl, u, p)
