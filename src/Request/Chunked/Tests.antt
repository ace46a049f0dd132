-- ===== src/Request/Chunked/Tests.antt =====
-- A body in two chunks, of three bytes and of one, with two bytes of the next request behind it.
use qhttp.Base.{
  ℕ, ◌≤◌, ◌≡◌, ◌⊎◌, refl, List, [], ◌∷◌, ◌++◌, none, ok, arith, length, take, drop, All,
  take-append-drop, length-take,
}
use qhttp.Request.{Poll, ready, Filled}
use qhttp.Request.Chunked.{ChunkedReader, new}
use qhttp.Request.Chunked.Fill.{IsSource}
use qhttp.Request.Chunked.Wire.{IsChunk, wire, concat}
use qhttp.Request.Chunked.Polls.{polls, readies, IsPassedOn, polls-wire, polls-whole}

-- The reader below puts as many bytes as there is room for.
abbrev poll_bytes : List ℕ → ℕ → Filled (List ℕ)
poll_bytes bytes room = record { reader = drop room bytes; put = take room bytes; poll = ready }

abbrev id_bytes : List ℕ → List ℕ
id_bytes bytes = bytes

poll_bytes-IsSource : IsSource id_bytes poll_bytes
poll_bytes-IsSource = record {
  reader = record {
    in_order = λ r room. take-append-drop room r;
    in_room = λ r room. omega (arith, length-take room r);
  };
  fed = λ r room is some_room some_bytes. omega (arith, length-take room r, some_room, some_bytes);
  quiet = λ r room h. absurd (h refl);
}

abbrev chunks : List (List ℕ)
chunks = (7 ∷ 8 ∷ 9 ∷ []) ∷ (6 ∷ []) ∷ []

chunks-IsChunk : All IsChunk chunks
chunks-IsChunk = omega arith

polls-wire_example :
    (c : ChunkedReader (List ℕ)) × (put left : List ℕ) × (answers : List Poll) × (polls poll_bytes
        (new (wire chunks ++ 71 ∷ 69 ∷ []) 20 none)
        (2 ∷ 5 ∷ [])
      ≡ ok (c, put, answers))
    × (put ++ left ≡ concat chunks)
    × All (IsPassedOn poll_bytes) answers
    × ((readies answers ≤ length put) ⊎ (left ≡ []))
polls-wire_example =
    polls-wire id_bytes poll_bytes poll_bytes-IsSource (wire chunks ++ 71 ∷ 69 ∷ []) 20 chunks
      (71 ∷ 69 ∷ []) (2 ∷ 5 ∷ []) (omega arith) (omega arith) chunks-IsChunk refl (omega arith)

polls-whole_example :
    (c : ChunkedReader (List ℕ)) × (answers : List Poll) × (polls poll_bytes
        (new (wire chunks ++ 71 ∷ 69 ∷ []) 20 none)
        (2 ∷ 5 ∷ 1 ∷ 1 ∷ [])
      ≡ ok (c, concat chunks, answers))
    × All (λ poll. poll ≡ ready) answers
polls-whole_example =
    polls-whole id_bytes poll_bytes poll_bytes-IsSource (wire chunks ++ 71 ∷ 69 ∷ []) 20 chunks
      (71 ∷ 69 ∷ []) (2 ∷ 5 ∷ 1 ∷ 1 ∷ []) (omega arith) (omega arith) chunks-IsChunk refl
      (omega arith) (λ r room. refl) (omega arith)
