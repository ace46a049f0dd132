-- ===== src/Buffer.antt =====
-- `Buffer` of src/buffer.rs: a vector with a read and a write pointer. `inner` is `None` in the
-- source only after `into_inner` has consumed the buffer, so here it is the vector itself. An index
-- or a slice out of range is a panic.
pub mod Contents
pub mod Fill
pub mod Drain
pub mod Fifo
mod Tests
use qhttp.Base.{
  ℕ, ◌+◌, ◌-◌, ◌≤◌, ◌<◌, ◌^◌, List, [], ◌++◌, Option, none, some, ◌&&◌, ◌==◌, ltb, leb,
  if◌then◌else◌, min, length, take, drop, replicate, slice, ok, or_panic, ◌>>=◌, ◌>>◌, IoResult,
  add_usize, sub_usize,
}

pub record Buffer : Type 0 where
  pub inner : List ℕ
  pub write_pointer : ℕ
  pub read_pointer : ℕ

unfoldable pub with_capacity : ℕ → Buffer
with_capacity capacity = record {
  inner = replicate capacity 0;
  write_pointer = 0;
  read_pointer = 0;
}

-- `From<T: Into<Vec<u8>>> for Buffer`
unfoldable pub from_vec : List ℕ → Buffer
from_vec bytes = record { inner = bytes; write_pointer = length bytes; read_pointer = 0 }

unfoldable pub reset : Buffer → Buffer
reset b = record b { write_pointer = 0; read_pointer = 0 }

unfoldable pub set_capacity : Buffer → ℕ → Buffer
unfolding reset
set_capacity b capacity =
    reset (if capacity == length b.inner then b else record b { inner = replicate capacity 0 })

-- `xs.copy_within(begin..end, 0)`
abbrev pub copy_to_front : List ℕ → ℕ → ℕ → Option (List ℕ)
copy_to_front xs begin end = elim (slice xs begin end) [
  | none ↦ none
  | some ys ↦ some (ys ++ drop (length ys) xs)
]

-- `xs[at..at + bytes.len()].copy_from_slice(bytes)`
abbrev pub copy_in : List ℕ → ℕ → List ℕ → Option (List ℕ)
copy_in xs at bytes =
    if leb (at + length bytes) (length xs)
    then some (take at xs ++ (bytes ++ drop (at + length bytes) xs))
    else none

unfoldable pub rotate_buffer : Buffer → IoResult Buffer
rotate_buffer b =
    if b.read_pointer == 0
    then ok b
    else if leb b.write_pointer b.read_pointer
    then ok (record b { write_pointer = 0; read_pointer = 0 })
    else (or_panic (copy_to_front b.inner b.read_pointer b.write_pointer) >>= λ inner. ok (record {
      inner = inner;
      write_pointer = sub_usize b.write_pointer b.read_pointer;
      read_pointer = 0;
    }))

unfoldable pub progress : Buffer → ℕ → Buffer
progress b amount =
    let new_read_pointer = add_usize b.read_pointer amount in
    if ltb b.write_pointer new_read_pointer
    then record b { read_pointer = b.write_pointer }
    else record b { read_pointer = new_read_pointer }

unfoldable pub progress_write : Buffer → ℕ → Buffer
progress_write b amount =
    let new_write_pointer = add_usize b.write_pointer amount in
    if ltb (length b.inner) new_write_pointer
    then record b { write_pointer = length b.inner }
    else record b { write_pointer = new_write_pointer }

unfoldable pub available_for_read : Buffer → ℕ
available_for_read b = sub_usize b.write_pointer b.read_pointer

unfoldable pub available_for_write : Buffer → ℕ
available_for_write b = add_usize (sub_usize (length b.inner) b.write_pointer) b.read_pointer

-- `AsRef<[u8]>`: the unread bytes.
unfoldable pub as_ref : Buffer → IoResult (List ℕ)
as_ref b = or_panic (slice b.inner b.read_pointer b.write_pointer)

-- `AsMut<[u8]>`: the buffer is rotated, and the bytes from the write pointer on are handed out.
unfoldable pub as_mut : Buffer → IoResult (Buffer × List ℕ)
unfolding rotate_buffer
as_mut b = do
  b' ← rotate_buffer b
  window ← or_panic (slice b'.inner b'.write_pointer (length b'.inner))
  ok (b', window)

-- `Read::read` into a buffer of `len` bytes: the bytes read.
unfoldable pub read : Buffer → ℕ → IoResult (Buffer × List ℕ)
unfolding available_for_read
read b len =
    let available = available_for_read b in
    if available == 0
    then ok (b, [])
    else (let amount = if ltb len available then len else available in
        or_panic (slice b.inner b.read_pointer (b.read_pointer + amount)) >>= λ bytes.
        ok (record b { read_pointer = b.read_pointer + amount }, bytes))

-- `Write::write` of `bytes`: how many were written.
unfoldable pub write : Buffer → List ℕ → IoResult (Buffer × ℕ)
unfolding rotate_buffer available_for_write
write b bytes = do
  b' ← rotate_buffer b
  let available = available_for_write b'
  if available == 0
      then ok (b', 0)
      else (let amount = if ltb (length bytes) available then length bytes else available in
          or_panic (copy_in b'.inner b'.write_pointer (take amount bytes)) >>= λ inner.
          ok (record b' { inner = inner; write_pointer = b'.write_pointer + amount }, amount))

-- `read_from_reader`, which the crate tokio carries out: `reader` is what the reader delivers into a
-- window of the given length, or its error.
unfoldable pub read_from_reader : Buffer → (ℕ → IoResult (List ℕ)) → IoResult (Buffer × ℕ)
unfolding as_mut
read_from_reader b reader = do
  rotated ← rotate_buffer b
  (b', window) ← as_mut rotated
  bytes ← reader (length window)
  inner ← or_panic (copy_in b'.inner b'.write_pointer bytes)
  ok (record b' { inner = inner; write_pointer = b'.write_pointer + length bytes }, length bytes)
