-- ===== src/Http1/Bodies/OldBytes.antt =====
-- The bytes that are in the buffer of a body when it is made.
use qhttp.Base.{
  ℕ, ◌+◌, ◌^◌, ◌≡◌, ◌≤◌, ◌<◌, refl, ap, ◌∙◌, List, [], ◌∷◌, ◌++◌, Option, none, some, ok, arith,
  length, length-append, take, take-length, replicate, IoError, All,
}
use qhttp.Buffer.{from_vec}
use qhttp.Buffer.Contents.{contents}
use qhttp.Http1.Writer.{Http}
use qhttp.Http1.Bodies.{Connection, BackgroundRead, request_body_buf, new, read_bodies}
use qhttp.Http1.Bodies.Order.{ahead, IsReady}
use qhttp.Http1.Bodies.Polls.{InUse, unread}
use qhttp.Http1.Bodies.InOrder.{CanAsk, total, read_bodies-in_order}

-- The bytes of the vector of the pool, or zeros.
abbrev pub old_bytes : (pooled : Option (List ℕ)) → (size : ℕ) → List ℕ
old_bytes (some bytes) size = bytes
old_bytes none size = replicate size 0

request_body_buf_lem :
    (pooled : Option (List ℕ)) (size : ℕ)
    → request_body_buf pooled size ≡ from_vec (old_bytes pooled size)
unfolding request_body_buf
request_body_buf_lem (some bytes) size = refl
request_body_buf_lem none size = refl

from_vec-contents : (bytes : List ℕ) → contents (from_vec bytes) ≡ bytes
unfolding from_vec
from_vec-contents bytes = ground (arith, take-length bytes)

new-InUse :
    (bytes : List ℕ) → 0 < length bytes → length bytes < 2 ^ 63 → InUse (new (from_vec bytes))
unfolding new from_vec
new-InUse bytes there small = record {
  body = from_vec bytes;
  present = refl;
  valid = record { ordered = omega arith; in_range = omega arith; small = small };
  some_room = there;
}

new-unread : (bytes : List ℕ) → unread (new (from_vec bytes)).buffer ≡ bytes
unfolding new
new-unread bytes = from_vec-contents bytes

prefix-take :
    (xs ys zs ws : List ℕ) → xs ++ ys ≡ zs ++ ws → length xs ≤ length zs → xs ≡ take (length xs) zs
prefix-take [] ys zs ws e h = refl
prefix-take (x ∷ xs) ys [] ws e h = absurd (omega (arith, h))
prefix-take (x ∷ xs) ys (z ∷ zs) ws e h =
    let heads : x ≡ z = cc in
    let tails : xs ++ ys ≡ zs ++ ws = cc in
    rw heads (ap (◌∷◌ z) (prefix-take xs ys zs ws tails (omega (arith, h))))

module _ (fails : (written : List ℕ) → Option IoError) (http : Http) where
  open http use {Version}

  -- A body does not start with the bytes of the connection: the first reads, which ask for no more
  -- bytes than the vector of its buffer has, and none of them for nothing, put the bytes that were in
  -- that vector before: those of an earlier body, when it is from the pool, or zeros. The vector is not
  -- empty, and the connection can ask for the body, if it is to.
  pub read_bodies-old_bytes :
      (version : Version) (pooled : Option (List ℕ)) (size : ℕ) (rooms : List ℕ) (c : Connection)
      → 0 < length (old_bytes pooled size)
      → length (old_bytes pooled size) < 2 ^ 63
      → IsReady c
      → CanAsk fails http version c
      → All (λ room. 0 < room) rooms
      → total rooms ≤ length (old_bytes pooled size)
      → (r' : BackgroundRead) × (c' : Connection) × (put : List ℕ) × (read_bodies fails http version
            rooms
            (new (request_body_buf pooled size))
            c
          ≡ ok (r', c', put))
        × (put ≡ take (length put) (old_bytes pooled size))
        × (length rooms ≤ length put)
  read_bodies-old_bytes version pooled size rooms c there small h can_ask positive enough =
      let old : List ℕ = old_bytes pooled size in
      let total_left : length (unread (new (from_vec old)).buffer ++ ahead c)
          ≡ length old + length (ahead c) =
        rw (new-unread old) (length-append old (ahead c)) in
      let (r', c', put, q, o, least, most) =
        read_bodies-in_order fails http version rooms (new (from_vec old)) c
          (new-InUse old there small) h can_ask positive (omega (arith, enough, total_left)) in
      (
        r',
        c',
        put,
        rw (request_body_buf_lem pooled size) q,
        prefix-take put (unread r'.buffer ++ ahead c') old (ahead c)
            (o ∙ ap (λ (xs : List ℕ). xs ++ ahead c) (new-unread old))
            (omega (arith, most, enough)),
        least,
      )
