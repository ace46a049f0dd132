-- ===== src/Http1/Bodies.antt =====
-- lib.rs: the body of a request. `BackgroundRead` is the reader that the handler has. It sends its
-- buffer to the task of the connection, which fills it (`handle_background_read_req`) and sends it
-- back. The channels are tokio's: what comes back is a parameter of a poll. The buffer goes back to
-- the pool when the reader is dropped.
pub mod Order
pub mod Reads
pub mod Service
pub mod Polls
pub mod InOrder
pub mod OldBytes
use qhttp.Base.{
  ℕ, Bool, true, false, List, [], ◌∷◌, ◌++◌, Option, none, some, Result, ok, err, panic, ◌>>=◌,
  ◌>>◌, or_panic, refuse_if, ltb, leb, ◌==◌, ◌&&◌, if◌then◌else◌, length, min, replicate, slice,
  sub_usize, IoResult, IoError,
}
use qhttp.Buffer.{
  Buffer, as_ref, progress, write, rotate_buffer, available_for_read, available_for_write,
  read_from_reader, from_vec,
}
use qhttp.H2.Reader.{Arrival, deliver, arrive}
use qhttp.Request.{Poll, ready, failed, pending, Filled}
use qhttp.Http1.Writer.{Http, write_continue_inner}

-- The fields of `Connection` that a body needs, what was written, and the flag that the loop of
-- `handle` keeps for a request. A read that takes too long is an arrival of the error `timed_out`.
pub record Connection : Type 0 where
  pub buffer : Buffer
  pub arrivals : List Arrival
  pub written : List ℕ
  pub expects_continue : Bool

-- What is sent to the body when the connection ends: an error, if anything.
abbrev pub Served : Type 0 → Type 0
Served A = Result (Option IoError) A

-- An error that is sent, before the connection ends.
abbrev pub or_send : {A : Type 0} → IoResult A → Served A
or_send (ok a) = ok a
or_send (err e) = err (some e)
or_send panic = panic

-- An error that is only logged, before the connection ends.
abbrev pub or_close : {A : Type 0} → IoResult A → Served A
or_close (ok a) = ok a
or_close (err e) = err none
or_close panic = panic

-- `.unwrap()`
abbrev pub unwrap : {A : Type 0} → IoResult A → Served A
unwrap (ok a) = ok a
unwrap (err e) = panic
unwrap panic = panic

-- `read_into_buffer`
unfoldable pub read_into_buffer : Connection → IoResult (Connection × ℕ)
read_into_buffer c = do
  (buffer, n) ← read_from_reader c.buffer (deliver c.arrivals)
  ok (record c { buffer = buffer; arrivals = arrive c.arrivals n }, n)

-- `amount` bytes of the buffer of the connection are written to the buffer of the body.
unfoldable pub give_part : Connection → Buffer → (amount : ℕ) → Served (Connection × Buffer)
give_part c body amount = do
  unread ← unwrap (as_ref c.buffer)
  part ← or_panic (slice unread 0 amount)
  (body', n) ← unwrap (write body part)
  ok (record c { buffer = progress c.buffer amount }, body')

-- All bytes of the buffer of the connection, and how many they were.
unfoldable pub give_all : Connection → Buffer → Served (Connection × Buffer × ℕ)
give_all c body = do
  unread ← unwrap (as_ref c.buffer)
  (body', n) ← unwrap (write body unread)
  ok (record c { buffer = progress c.buffer n }, body', n)

-- The bytes that are there, up to `amount`.
unfoldable pub give : Connection → Buffer → (amount : ℕ) → Served (Connection × Buffer)
give c body amount =
    if leb amount (available_for_read c.buffer)
    then give_part c body amount
    else (give_all c body >>= λ (c', body', n). ok (c', body'))

-- The second half of `handle_background_read_req`: a read, and the bytes that it brings.
unfoldable pub read_more : Connection → Buffer → (amount : ℕ) → Served (Connection × Buffer)
read_more c body amount = do
  (c', n) ← or_send (read_into_buffer c)
  refuse_if (n == 0) (some IoError.unexpected_eof)
  give c' body amount

-- The first half: the bytes that are there, if any.
unfoldable pub give_or_read : Connection → Buffer → (amount : ℕ) → Served (Connection × Buffer)
give_or_read c body amount =
    if ltb 0 (available_for_read c.buffer)
    then if leb amount (available_for_read c.buffer)
      then give_part c body amount
      else (give_all c body >>= λ (c', body', n). read_more c' body' (sub_usize amount n))
    else read_more c body amount

module _ (fails : (written : List ℕ) → Option IoError) (http : Http) where
  -- The line that asks for the body is written before its first bytes.
  unfoldable pub ask_for_body : Http.Version http → Connection → Served Connection
  ask_for_body version c =
      if c.expects_continue
      then (or_close (write_continue_inner fails http version c.written) >>= λ written.
          ok (record c { written = written; expects_continue = false }))
      else ok c

  unfoldable pub handle_background_read_req :
      Http.Version http → Connection → Buffer → (amount : ℕ) → Served (Connection × Buffer)
  handle_background_read_req version c buffer amount = do
    body ← unwrap (rotate_buffer buffer)
    let available = available_for_write body
    c' ← ask_for_body version c
    give_or_read c' body (if ltb available amount then available else amount)

-- The state of a body's reader. `has_receiver` is whether it waits for an answer.
pub record BackgroundRead : Type 0 where
  pub buffer : Option Buffer
  pub has_receiver : Bool

-- What a poll of the answer's channel finds: nothing yet, a buffer or an error, or that the
-- connection has dropped its end.
pub data Answer : Type 0 where
  nothing : Answer
  came : Result IoError Buffer → Answer
  dropped : Answer

-- The buffer of a body: a vector of the pool, or a new one.
unfoldable pub request_body_buf : (pooled : Option (List ℕ)) → (size : ℕ) → Buffer
request_body_buf (some bytes) size = from_vec bytes
request_body_buf none size = from_vec (replicate size 0)

unfoldable pub new : Buffer → BackgroundRead
new buffer = record { buffer = some buffer; has_receiver = false }

-- What a poll leaves, and the request that it sends to the connection.
abbrev pub Polled : Type 0
Polled = Filled BackgroundRead × Option (Buffer × ℕ)

-- The bytes of a buffer, up to `room`, with the buffer behind them.
unfoldable pub put_from : BackgroundRead → Buffer → (room : ℕ) → IoResult (Filled BackgroundRead)
put_from r buffer room = do
  let amount = min (available_for_read buffer) room
  unread ← as_ref buffer
  put ← or_panic (slice unread 0 amount)
  ok (record {
    reader = record r { buffer = some (progress buffer amount) };
    put = put;
    poll = ready;
  })

-- A poll that puts nothing.
abbrev pub answer : BackgroundRead → Poll → IoResult (Filled BackgroundRead)
answer r poll = ok (record { reader = r; put = []; poll = poll })

-- An answer of the connection to the reader `r`, which has no buffer: `is_kept` is whether the
-- receiver is there when the buffer comes back empty.
unfoldable pub receive :
    BackgroundRead → (is_kept : Bool) → (room : ℕ) → Answer → IoResult (Filled BackgroundRead)
receive r is_kept room nothing = answer (record r { has_receiver = true }) pending
receive r is_kept room dropped = answer r (failed IoError.other)
receive r is_kept room (came (err e)) = answer r (failed e)
receive r is_kept room (came panic) = panic
receive r is_kept room (came (ok buffer)) =
    if ltb 0 (available_for_read buffer)
    then put_from (record r { has_receiver = true }) buffer room
    else answer (record r { has_receiver = is_kept }) ready

-- A poll without unread bytes: a request is sent, or its answer is polled for.
unfoldable pub exchange : BackgroundRead → (room : ℕ) → (is_open : Bool) → Answer → IoResult Polled
exchange r room is_open a = elim r.buffer [
  | some buffer ↦
      if is_open
      then (receive (record r { buffer = none }) true room a >>= λ f. ok (f, some (buffer, room)))
      else (answer (record r { buffer = none }) (failed IoError.other) >>= λ f. ok (f, none))
  | none ↦
      if r.has_receiver
      then (receive (record r { has_receiver = false }) false room a >>= λ f. ok (f, none))
      else (answer r (failed IoError.other) >>= λ f. ok (f, none))
]

-- A poll. `is_open` is whether the connection still takes requests.
unfoldable pub poll_read : BackgroundRead → (room : ℕ) → (is_open : Bool) → Answer → IoResult Polled
poll_read r room is_open a = elim r.buffer [
  | some buffer ↦
      if ltb 0 (available_for_read buffer)
      then (put_from r buffer room >>= λ f. ok (f, none))
      else exchange r room is_open a
  | none ↦ exchange r room is_open a
]

module _ (fails : (written : List ℕ) → Option IoError) (http : Http) where
  -- A read of the body, into `room` bytes: a poll, and when it sends a request, the round of the loop
  -- of `handle` that serves it, and the poll for the answer.
  unfoldable pub read_body :
      Http.Version http
      → (room : ℕ) → BackgroundRead
      → Connection
      → Served (BackgroundRead × Connection × List ℕ)
  read_body version room r c = unwrap (poll_read r room true nothing) >>= λ (f, request).
      elim request [
        | none ↦ ok (f.reader, c, f.put)
        | some (buffer, amount) ↦
            handle_background_read_req fails http version c buffer amount >>= λ (c', body).
            unwrap (poll_read f.reader room true (came (ok body))) >>= λ (g, none_sent).
            ok (g.reader, c', g.put)
      ]

  -- One read after the other, and all bytes that they put.
  unfoldable pub read_bodies :
      Http.Version http
      → (rooms : List ℕ) → BackgroundRead
      → Connection
      → Served (BackgroundRead × Connection × List ℕ)
  read_bodies version [] r c = ok (r, c, [])
  read_bodies version (room ∷ rooms) r c = read_body version room r c >>= λ (r₁, c₁, put).
      read_bodies version rooms r₁ c₁ >>= λ (r₂, c₂, more). ok (r₂, c₂, put ++ more)
