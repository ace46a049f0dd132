-- ===== src/H2/BackgroundRead.antt =====
-- `BackgroundRead` of src/http2/mod.rs: the reader of a request's body. The parts of the body come
-- from the task of the stream, and the sizes of the parts that were read go back to it. The channels
-- are tokio's: `waiting` are the parts sent and not received, `ended` says whether the task has
-- dropped its sender, `handed_back` are the sizes sent back, and `sends_left` is how many more the
-- channel takes before the task drops its receiver: every send after that fails.
pub mod Account
mod Tests
use qhttp.Base.{
  ℕ, zero, suc, ◌+◌, ◌^◌, Bool, true, false, List, [], ◌∷◌, ◌++◌, Option, none, some, ◌==◌, ◌&&◌,
  ok, err, panic, ltb, min, length, slice, if◌then◌else◌, IoResult, IoError, or_panic, ◌>>=◌,
}
use qhttp.Buffer.{Buffer, from_vec, as_ref, progress, available_for_read}

-- After `drop`, the fields are taken; before it, both channels are there.
pub record BackgroundRead : Type 0 where
  pub buffer : Option Buffer
  pub waiting : List (List ℕ)
  pub ended : Bool
  pub sends_left : ℕ
  pub handed_back : List ℕ

-- The answer of `poll_read`: the bytes that were put, or nothing yet.
pub data Poll : Type 0 where
  ready : List ℕ → Poll
  pending : Poll

-- `sender.send(amount)`: a send that fails is ignored, and its size is lost.
abbrev pub send : BackgroundRead → ℕ → BackgroundRead
send r amount = elim r.sends_left [
  | zero ↦ r
  | suc n ↦ record r { sends_left = n; handed_back = r.handed_back ++ (amount ∷ []) }
]

-- A size is sent if it is an `i32`.
unfoldable pub send_size : BackgroundRead → ℕ → BackgroundRead
send_size r amount = if ltb amount (2 ^ 31) then send r amount else r

-- `update_window`, after which the buffer is dropped.
unfoldable pub update_window : BackgroundRead → ℕ → BackgroundRead
update_window r amount = send_size (record r { buffer = none }) amount

-- The buffer after a read is kept while it has unread bytes.
unfoldable pub keep : BackgroundRead → Buffer → BackgroundRead
keep r buffer =
    if ltb 0 (available_for_read buffer)
    then record r { buffer = some buffer }
    else update_window r (length buffer.inner)

-- Reading from a buffer with unread bytes, into `room` bytes.
unfoldable pub read_from : BackgroundRead → Buffer → ℕ → IoResult (BackgroundRead × Poll)
read_from r buffer room = do
  let amount = min (available_for_read buffer) room
  unread ← as_ref buffer
  put ← or_panic (slice unread 0 amount)
  ok (keep r (progress buffer amount), ready put)

-- The next part; a part without bytes is dropped, and nothing is put.
unfoldable pub receive : BackgroundRead → ℕ → IoResult (BackgroundRead × Poll)
receive r room = next r.waiting
  where
    next : List (List ℕ) → IoResult (BackgroundRead × Poll)
    next [] = ok (r, if r.ended then ready [] else pending)
    next (part ∷ rest) =
        let r' : BackgroundRead = record r { waiting = rest } in
        if ltb 0 (available_for_read (from_vec part))
        then read_from r' (from_vec part) room
        else ok (r', ready [])

unfoldable pub poll_read : BackgroundRead → ℕ → IoResult (BackgroundRead × Poll)
poll_read r room = first r.buffer
  where
    first : Option Buffer → IoResult (BackgroundRead × Poll)
    first none = receive r room
    first (some buffer) =
        if ltb 0 (available_for_read buffer)
        then read_from (record r { buffer = none }) buffer room
        else receive (update_window r (length buffer.inner)) room

-- The loop of the task that `drop` spawns, over the parts that still come: the first send that fails
-- ends it.
unfoldable pub send_sizes : BackgroundRead → List (List ℕ) → BackgroundRead
send_sizes r [] = r
send_sizes r (part ∷ rest) =
    let next = send_sizes (send_size r (length part)) rest in
    if ltb (length part) (2 ^ 31) && (r.sends_left == 0) then r else next

abbrev pub drop_buffer : BackgroundRead → Option Buffer → BackgroundRead
drop_buffer r none = r
drop_buffer r (some buffer) = send_size (record r { buffer = none }) (length buffer.inner)

-- `drop`: the sizes of the buffer and of all parts that still come.
unfoldable pub drop_reader : BackgroundRead → List ℕ
drop_reader r = (send_sizes (drop_buffer r r.buffer) r.waiting).handed_back
