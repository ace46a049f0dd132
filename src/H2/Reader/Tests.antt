-- ===== src/H2/Reader/Tests.antt =====
-- Two bytes of a frame are unread, and the others arrive in three pieces, with a byte of the next.
use qhttp.Base.{◌≡◌, refl, List, [], ◌∷◌, ◌++◌, ok, arith}
use qhttp.Buffer.{Buffer}
use qhttp.Buffer.Contents.{IsValid, capacity}
use qhttp.H2.Crates.{FrameType}
use qhttp.H2.Crates.Examples.{crates}
use qhttp.H2.Frame.{Frame}
use qhttp.H2.Frame.Wire.{frame_bytes}
use qhttp.H2.Reader.{Arrival, bytes, Connected, read_next_frame}
use qhttp.H2.Reader.Fill.{ahead}
use qhttp.H2.Reader.Fragments.{read_next_frame-frame_bytes}

-- DATA of stream 1 with two bytes, which ends the stream.
abbrev last_data : Frame
last_data = record {
  header = record { type = FrameType.data_frame; flags = 1; stream = 1 };
  payload = 7 ∷ 8 ∷ [];
}

abbrev two_unread : Buffer
two_unread = record {
  inner = 0 ∷ 0 ∷ 0 ∷ 0 ∷ 0 ∷ 0 ∷ 0 ∷ 0 ∷ 0 ∷ 0 ∷ [];
  write_pointer = 3;
  read_pointer = 1;
}

two_unread-IsValid : IsValid two_unread
two_unread-IsValid = record { ordered = omega arith; in_range = omega arith; small = omega arith }

abbrev pieces : List Arrival
pieces = bytes (2 ∷ 0 ∷ 1 ∷ []) ∷ bytes (0 ∷ 0 ∷ 0 ∷ 1 ∷ 7 ∷ []) ∷ bytes (8 ∷ 9 ∷ []) ∷ []

last_data-ahead :
    ahead (record { buffer = two_unread; arrivals = pieces }) ≡ frame_bytes last_data ++ 9 ∷ []
unfolding frame_bytes
last_data-ahead = refl

read_next_frame_example :
    (c' : Connected) × (read_next_frame crates (record { buffer = two_unread; arrivals = pieces })
      ≡ ok (last_data, c'))
    × IsValid c'.buffer
    × (ahead c' ≡ 9 ∷ [])
    × (capacity c'.buffer ≡ 10)
read_next_frame_example =
    read_next_frame-frame_bytes crates two_unread pieces last_data (9 ∷ []) two_unread-IsValid
      (omega arith, (omega arith, (omega arith, tt))) last_data-ahead (omega arith) (omega arith)
      (omega arith) (omega arith) refl refl (λ e. cc) (omega arith)
