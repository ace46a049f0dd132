-- ===== src/Request/Tests.antt =====
-- A body of three bytes, with the two first bytes of the next request behind it.
use qhttp.Base.{
  ℕ, ◌+◌, ◌≤◌, ◌≡◌, refl, List, [], ◌∷◌, ◌++◌, arith, length, take, drop, take-append-drop,
  length-take,
}
use qhttp.Request.{Poll, Filled, LimitReader, new, poll_read, read_all, read_small}
use qhttp.Request.Limit.{IsLimit, IsReader, polls, polls-limit}

-- The reader below puts as many bytes as there is room for.
abbrev poll_bytes : List ℕ → ℕ → Filled (List ℕ)
poll_bytes bytes room = record {
  reader = drop room bytes;
  put = take room bytes;
  poll = Poll.ready;
}

abbrev id_bytes : List ℕ → List ℕ
id_bytes bytes = bytes

poll_bytes-IsReader : IsReader id_bytes poll_bytes
poll_bytes-IsReader = record {
  in_order = λ r room. take-append-drop room r;
  in_room = λ r room. omega (arith, length-take room r);
}

abbrev body : LimitReader (List ℕ)
body = record { reader = 7 ∷ 8 ∷ 9 ∷ 71 ∷ 69 ∷ []; max = 3; current = 0 }

body-IsLimit : IsLimit body
body-IsLimit = record { in_range = omega arith; fits = omega arith }

polls-limit_example :
    ((polls poll_bytes body (2 ∷ 9 ∷ 9 ∷ [])).1 ++ (polls poll_bytes body (2 ∷ 9 ∷ 9 ∷ [])).0.reader
      ≡ 7 ∷ 8 ∷ 9 ∷ 71 ∷ 69 ∷ [])
    × ((polls poll_bytes body (2 ∷ 9 ∷ 9 ∷ [])).0.current
        ≡ 0 + length (polls poll_bytes body (2 ∷ 9 ∷ 9 ∷ [])).1)
    × (0 + length (polls poll_bytes body (2 ∷ 9 ∷ 9 ∷ [])).1 ≤ 3)
polls-limit_example =
    polls-limit id_bytes poll_bytes poll_bytes-IsReader (2 ∷ 9 ∷ 9 ∷ []) body body-IsLimit

-- The second poll ends at the limit, the third finds the end of the body.
body_polls :
    polls poll_bytes (new (7 ∷ 8 ∷ 9 ∷ 71 ∷ 69 ∷ []) 3) (2 ∷ 9 ∷ 9 ∷ [])
    ≡ (record { reader = 71 ∷ 69 ∷ []; max = 3; current = 3 }, 7 ∷ 8 ∷ 9 ∷ [])
unfolding new poll_read read_all read_small
body_polls = refl
