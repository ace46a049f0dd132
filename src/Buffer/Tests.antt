-- ===== src/Buffer/Tests.antt =====
-- Runs of a buffer, and the theorems on buffers at them.
use qhttp.Base.{◌≡◌, [], ◌∷◌, ok, arith}
use qhttp.Buffer.{Buffer}
use qhttp.Buffer.Contents.{IsValid}
use qhttp.Buffer.Fifo.{put, get, skip, run, queue_run, run_refines}

-- Of five bytes, one was read and two are unread.
abbrev half_read : Buffer
half_read = record { inner = 1 ∷ 2 ∷ 3 ∷ 4 ∷ 5 ∷ []; write_pointer = 3; read_pointer = 1 }

half_read-IsValid : IsValid half_read
half_read-IsValid = record { ordered = omega arith; in_range = omega arith; small = omega arith }

run_refines_example :
    run half_read (put (6 ∷ 7 ∷ []) ∷ get 3 ∷ skip 1 ∷ [])
    ≡ ok (queue_run 5 (2 ∷ 3 ∷ []) (put (6 ∷ 7 ∷ []) ∷ get 3 ∷ skip 1 ∷ []))
run_refines_example =
    run_refines (put (6 ∷ 7 ∷ []) ∷ get 3 ∷ skip 1 ∷ []) half_read-IsValid (omega arith, tt)
