-- ===== src/H2/BackgroundRead/Tests.antt =====
-- A body of two parts, of which two bytes and then one are read before it is dropped.
use qhttp.Base.{ℕ, ◌≤◌, ◌<◌, ◌⊎◌, ◌≡◌, refl, false, List, [], ◌∷◌, ◌++◌, none, ok, arith}
use qhttp.Buffer.{from_vec, available_for_read}
use qhttp.H2.BackgroundRead.{
  BackgroundRead, ready, poll_read, receive, send_size, send_sizes, drop_reader,
}
use qhttp.H2.BackgroundRead.Account.{IsReader, sum, account, unread, sends}
use qhttp.H2.BackgroundRead.Account.Polls.{polls, polls-account}

abbrev two_parts : BackgroundRead
two_parts = record {
  buffer = none;
  waiting = (7 ∷ 8 ∷ 9 ∷ []) ∷ (10 ∷ 11 ∷ []) ∷ [];
  ended = false;
  sends_left = 2;
  handed_back = [];
}

two_parts-IsReader : IsReader two_parts
two_parts-IsReader = record { buffered_valid = tt; parts = (omega arith, (omega arith, tt)) }

polls_example :
    (r' : BackgroundRead) × (put : List ℕ) × (polls two_parts (2 ∷ 1 ∷ []) ≡ ok (r', put))
    × (put ++ unread r' ≡ 7 ∷ 8 ∷ 9 ∷ 10 ∷ 11 ∷ [])
    × (sum (drop_reader r') ≤ account two_parts)
    × ((sum (drop_reader r') ≡ account two_parts) ⊎ (two_parts.sends_left < sends two_parts))
polls_example = polls-account (2 ∷ 1 ∷ []) two_parts two_parts-IsReader

-- The task of the stream has ended: nothing is handed back.
lost_window : drop_reader (record two_parts { sends_left = 0 }) ≡ []
unfolding drop_reader send_sizes send_size
lost_window = refl

-- A part without bytes puts nothing, which a reader takes for the end of the body.
empty_part :
    poll_read (record two_parts { waiting = [] ∷ (10 ∷ []) ∷ [] }) 5
    ≡ ok (record two_parts { waiting = (10 ∷ []) ∷ [] }, ready [])
unfolding poll_read receive available_for_read from_vec
empty_part = refl
