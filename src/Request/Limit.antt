-- ===== src/Request/Limit.antt =====
-- What a `LimitReader` takes from the reader below it.
use qhttp.Base.{
  ℕ, ◌+◌, ◌-◌, ◌^◌, ◌≤◌, ◌<◌, ◌≡◌, refl, ap, ◌∙◌, List, [], ◌∷◌, ◌++◌, append_assoc, arith, length,
  length-append, Bool-cases, inl, inr, ltb, leb, ◌==◌, false,
}
use qhttp.Request.{Filled, LimitReader, read_all, read_small, poll_read}

-- The count is within the maximum, which is a `usize`.
pub record IsLimit {R : Type 0} (l : LimitReader R) : Type 0 where
  pub in_range : l.current ≤ l.max
  pub fits : l.max < 2 ^ 64

-- A reader keeps the bytes it will put, `rest`, in order, and puts no more than there is room for.
pub record IsReader {R : Type 0} (rest : R → List ℕ) (poll_below : R → ℕ → Filled R) : Type 0 where
  pub in_order :
      (r : R) (room : ℕ) → (poll_below r room).put ++ rest (poll_below r room).reader ≡ rest r
  pub in_room : (r : R) (room : ℕ) → length (poll_below r room).put ≤ room

-- The poll `f` of `l` counts what it puts, and takes nothing else from the reader below.
pub record Counted {R : Type 0} (rest : R → List ℕ) (l : LimitReader R) (f : Filled (LimitReader R))
    : Type 0 where
  pub count : f.reader.current ≡ l.current + length f.put
  pub same_max : f.reader.max ≡ l.max
  pub in_limit : f.reader.current ≤ l.max
  pub in_order : f.put ++ rest f.reader.reader ≡ rest l.reader

-- Polls with room for `rooms` bytes: the reader after them, and all bytes that were put.
abbrev pub polls :
    {R : Type 0} → (R → ℕ → Filled R) → LimitReader R → List ℕ → LimitReader R × List ℕ
polls poll_below l [] = (l, [])
polls poll_below l (room ∷ rooms) =
    let filled = poll_read poll_below l room in
    let after = polls poll_below filled.reader rooms in (after.0, filled.put ++ after.1)

module _ {R : Type 0} (rest : R → List ℕ) (poll_below : R → ℕ → Filled R)
    (below : IsReader rest poll_below) where
  read_all-Counted :
      (l : LimitReader R) (room : ℕ)
      → IsLimit l
      → room ≤ l.max - l.current
      → Counted rest l (read_all poll_below l room)
  unfolding read_all
  read_all-Counted l room v h = record {
    count = ground (arith, below.in_room l.reader room, v.in_range, v.fits, h);
    same_max = refl;
    in_limit = ground (arith, below.in_room l.reader room, v.in_range, v.fits, h);
    in_order = below.in_order l.reader room;
  }

  read_small-Counted :
      (l : LimitReader R) → IsLimit l → Counted rest l (read_small poll_below l (l.max - l.current))
  unfolding read_small
  read_small-Counted l v = record {
    count = ground (arith, below.in_room l.reader (l.max - l.current), v.in_range, v.fits);
    same_max = refl;
    in_limit = ground (arith, below.in_room l.reader (l.max - l.current), v.in_range, v.fits);
    in_order = below.in_order l.reader (l.max - l.current);
  }

  poll_read-Counted :
      (l : LimitReader R) (room : ℕ) → IsLimit l → Counted rest l (poll_read poll_below l room)
  unfolding poll_read
  poll_read-Counted l room v =
      let sound : ltb l.max l.current ≡ false = ground (arith, v.in_range) in
      elim (Bool-cases ((l.max - l.current) == 0)) [
        | inl e ↦
            rw (sound, e)
              (record {
                count = omega arith;
                same_max = refl;
                in_limit = v.in_range;
                in_order = refl;
              })
        | inr e ↦ elim (Bool-cases (leb room (l.max - l.current))) [
          | inl f ↦ rw (sound, e, f) (read_all-Counted l room v (ground (arith, f)))
          | inr f ↦ rw (sound, e, f) (read_small-Counted l v)
        ]
      ]

  -- However a body is polled, the bytes put are a front of the bytes of the reader below, in their
  -- order, they are counted, and with those counted before they are no more than the maximum; the
  -- bytes behind them stay in the reader below. The reader below keeps the order of its bytes and
  -- the room that it is given, and the count is within the maximum at the start.
  pub polls-limit :
      (rooms : List ℕ) (l : LimitReader R)
      → IsLimit l
      → ((polls poll_below l rooms).1 ++ rest (polls poll_below l rooms).0.reader ≡ rest l.reader)
        × ((polls poll_below l rooms).0.current ≡ l.current + length (polls poll_below l rooms).1)
        × (l.current + length (polls poll_below l rooms).1 ≤ l.max)
  polls-limit [] l v = (refl, omega arith, omega (arith, v.in_range))
  polls-limit (room ∷ rooms) l v =
      let filled : Filled (LimitReader R) = poll_read poll_below l room in
      let c : Counted rest l filled = poll_read-Counted l room v in
      let w : IsLimit filled.reader = record {
        in_range = omega (arith, c.in_limit, c.same_max);
        fits = omega (arith, v.fits, c.same_max);
      } in
      let (k, n, m) = polls-limit rooms filled.reader w in
      let put : List ℕ = (polls poll_below filled.reader rooms).1 in
      let sum : length (filled.put ++ put) ≡ length filled.put + length put =
        length-append filled.put put in
      (
        append_assoc filled.put put (rest (polls poll_below filled.reader rooms).0.reader)
            ∙ ap (λ (xs : List ℕ). filled.put ++ xs) k
            ∙ c.in_order,
        omega (arith, n, c.count, sum),
        omega (arith, m, c.count, c.same_max, sum),
      )
