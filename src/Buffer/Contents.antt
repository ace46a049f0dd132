-- ===== src/Buffer/Contents.antt =====
-- The representation invariant of `Buffer`, and what each operation does to its unread bytes.
use qhttp.Base.{
  ℕ, ◌-◌, ◌≤◌, ◌<◌, ◌^◌, ◌≡◌, List, ◌++◌, leb, ◌==◌, if◌then◌else◌, arith, length, take, drop, ok,
  length-append, length-take, length-drop, take-append, take-length,
}
use qhttp.Buffer.{Buffer, rotate_buffer, as_ref}

-- Both pointers are in range and in order. A vector never holds 2^63 bytes.
pub record IsValid (b : Buffer) : Type 0 where
  pub ordered : b.read_pointer ≤ b.write_pointer
  pub in_range : b.write_pointer ≤ length b.inner
  pub small : length b.inner < 2 ^ 63

-- The unread bytes.
abbrev pub contents : Buffer → List ℕ
contents b = take (b.write_pointer - b.read_pointer) (drop b.read_pointer b.inner)

abbrev pub capacity : Buffer → ℕ
capacity b = length b.inner

pub length-contents :
    {b : Buffer} → IsValid b → length (contents b) ≡ b.write_pointer - b.read_pointer
length-contents {b} v = omega (
  arith,
  length-take (b.write_pointer - b.read_pointer) (drop b.read_pointer b.inner),
  length-drop b.read_pointer b.inner,
)

-- `as_ref` hands out the unread bytes.
pub as_ref-contents : {b : Buffer} → IsValid b → as_ref b ≡ ok (contents b)
unfolding as_ref
as_ref-contents v = ground arith

-- What a rotation returns: the unread bytes at the front.
pub rotated : Buffer → Buffer
rotated b =
    if b.read_pointer == 0
    then b
    else if leb b.write_pointer b.read_pointer
    then record b { write_pointer = 0; read_pointer = 0 }
    else record {
      inner = contents b ++ drop (length (contents b)) b.inner;
      write_pointer = b.write_pointer - b.read_pointer;
      read_pointer = 0;
    }

pub rotate_buffer-rotated : {b : Buffer} → IsValid b → rotate_buffer b ≡ ok (rotated b)
unfolding rotate_buffer rotated
rotate_buffer-rotated {b} v = ground arith

pub length-rotated : {b : Buffer} → IsValid b → length (rotated b).inner ≡ length b.inner
unfolding rotated
length-rotated {b} v = ground (
  arith,
  length-contents v,
  length-append (contents b) (drop (length (contents b)) b.inner),
  length-drop (length (contents b)) b.inner,
)

pub rotated-IsValid : {b : Buffer} → IsValid b → IsValid (rotated b)
unfolding rotated
rotated-IsValid {b} v = ground (arith, length-rotated v)

pub contents-rotated : {b : Buffer} → IsValid b → contents (rotated b) ≡ contents b
unfolding rotated
contents-rotated {b} v = ground (
  arith,
  length-contents v,
  take-append (b.write_pointer - b.read_pointer) (contents b) (drop (length (contents b)) b.inner),
  take-length (contents b),
)

pub read_pointer-rotated : {b : Buffer} → IsValid b → (rotated b).read_pointer ≡ 0
unfolding rotated
read_pointer-rotated v = ground arith

-- A rotation of a valid buffer succeeds and keeps validity, the unread bytes and the capacity;
-- afterwards the unread bytes are at the front.
pub rotate_buffer_lem :
    {b : Buffer}
    → IsValid b
    → (b' : Buffer) × (rotate_buffer b ≡ ok b')
      × IsValid b'
      × (contents b' ≡ contents b)
      × (b'.read_pointer ≡ 0)
      × (capacity b' ≡ capacity b)
rotate_buffer_lem {b} v = (
  rotated b,
  rotate_buffer-rotated v,
  rotated-IsValid v,
  contents-rotated v,
  read_pointer-rotated v,
  length-rotated v,
)
