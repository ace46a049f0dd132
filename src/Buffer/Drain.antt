-- ===== src/Buffer/Drain.antt =====
-- Draining a buffer: `read` and `progress` take from the front of the unread bytes.
use qhttp.Base.{
  ℕ, ◌+◌, ◌-◌, ◌<◌, ◌^◌, ◌≡◌, refl, [], min, arith, take, drop, ok, take-take, drop-take, drop-drop,
  take-all, drop-all,
}
use qhttp.Buffer.{Buffer, progress, read}
use qhttp.Buffer.Contents.{IsValid, contents, capacity, length-contents}

-- Moving the read pointer on drops unread bytes.
contents-skip :
    (b : Buffer) (k : ℕ)
    → contents (record b { read_pointer = b.read_pointer + k }) ≡ drop k (contents b)
contents-skip b k = ground (
  arith,
  drop-take k (b.write_pointer - b.read_pointer) (drop b.read_pointer b.inner),
  drop-drop k b.read_pointer b.inner,
)

contents-all_read : (b : Buffer) → contents (record b { read_pointer = b.write_pointer }) ≡ []
contents-all_read b = ground arith

-- On a valid buffer `read` hands out the first unread bytes, as many as fit, and only those are
-- taken off; the capacity stays, and so does validity.
pub read_lem :
    {b : Buffer} (len : ℕ)
    → IsValid b
    → (b' : Buffer) × (read b len ≡ ok (b', take len (contents b)))
      × IsValid b'
      × (contents b' ≡ drop len (contents b))
      × (capacity b' ≡ capacity b)
unfolding read
read_lem {b} len v = (
  record b { read_pointer = b.read_pointer + min (b.write_pointer - b.read_pointer) len },
  ground (
    arith,
    take-take len (b.write_pointer - b.read_pointer) (drop b.read_pointer b.inner),
    take-all len (contents b),
    length-contents v,
  ),
  ground arith,
  ground (
    arith,
    contents-skip b (min (b.write_pointer - b.read_pointer) len),
    drop-all len (contents b),
    length-contents v,
  ),
  refl,
)

-- On a valid buffer, `progress` by less than 2^63 skips that many unread bytes, all of them if it
-- is asked for more; the capacity stays, and so does validity.
pub progress_lem :
    {b : Buffer} (amount : ℕ)
    → IsValid b
    → amount < 2 ^ 63
    → IsValid (progress b amount)
      × (contents (progress b amount) ≡ drop amount (contents b))
      × (capacity (progress b amount) ≡ capacity b)
unfolding progress
progress_lem {b} amount v h = (
  ground arith,
  ground (
    arith,
    contents-skip b amount,
    contents-all_read b,
    drop-all amount (contents b),
    length-contents v,
  ),
  ground arith,
)
