-- ===== src/H2/Frame/Priority.antt =====
-- `Priority` and `PriorityFrame` of src/http2/frame.rs.
use qhttp.Base.{
  ℕ, ◌+◌, ◌-◌, ◌%◌, ◌^◌, ◌≡◌, refl, Bool, true, false, List, [], ◌∷◌, ◌++◌, arith, leb,
  if◌then◌else◌, slice, get_elem?, length, ok, or_panic, ◌>>=◌, ◌>>◌, IsU31, append-nil,
}
use qhttp.Base.U32
use qhttp.H2.Error.{H2Result}
use qhttp.H2.Crates.{FrameType}
use qhttp.H2.Frame.{Frame, expect_type}

pub record Priority : Type 0 where
  pub stream_dependency : ℕ
  pub exclusive : Bool
  pub weight : ℕ

-- `From<&[u8]> for Priority`
unfoldable pub from_slice : List ℕ → H2Result Priority
from_slice bytes = do
  first ← or_panic (slice bytes 0 4)
  number ← or_panic (U32.from_be_bytes first)
  weight ← or_panic (get_elem? bytes 4)
  if leb (2 ^ 31) number
      then ok (record { stream_dependency = number - 2 ^ 31; exclusive = true; weight = weight })
      else ok (record { stream_dependency = number; exclusive = false; weight = weight })

-- `From<Priority> for Vec<u8>`: on a u32 `n | (1<<31)` is `n % 2 ^ 31 + 2 ^ 31`, and
-- `n & !(1<<31)` is `n % 2 ^ 31`.
unfoldable pub into_bytes : Priority → List ℕ
into_bytes p =
    U32.to_be_bytes
      (if p.exclusive then p.stream_dependency % 2 ^ 31 + 2 ^ 31 else p.stream_dependency % 2 ^ 31)
    ++ (p.weight ∷ [])

pub record PriorityFrame : Type 0 where
  pub stream : ℕ
  pub priority : Priority

unfoldable pub try_from : Frame → H2Result PriorityFrame
try_from frame = do
  expect_type frame FrameType.priority
  priority ← from_slice frame.payload
  ok (record { stream = frame.header.stream; priority = priority })

unfoldable pub into_frame : PriorityFrame → Frame
into_frame frame = record {
  header = record { type = FrameType.priority; flags = 0; stream = frame.stream };
  payload = into_bytes frame.priority;
}

-- The five bytes of a priority are read back, whatever follows them.
pub from_slice-into_bytes :
    (p : Priority) (rest : List ℕ)
    → IsU31 p.stream_dependency
    → from_slice (into_bytes p ++ rest) ≡ ok p
unfolding from_slice into_bytes
from_slice-into_bytes p rest h = ground (
  arith,
  U32.be_bytes_value (p.stream_dependency % 2 ^ 31 + 2 ^ 31) (omega arith),
  U32.be_bytes_value (p.stream_dependency % 2 ^ 31) (omega arith),
)

pub length-into_bytes : (p : Priority) → length (into_bytes p) ≡ 5
unfolding into_bytes
length-into_bytes p = refl

-- A PRIORITY frame that the server writes is read back as it was, if the stream that it depends on
-- fits 31 bits.
pub try_from-into_frame_priority :
    (f : PriorityFrame) → IsU31 f.priority.stream_dependency → try_from (into_frame f) ≡ ok f
unfolding try_from into_frame
try_from-into_frame_priority f h =
    rw (← append-nil (into_bytes f.priority), from_slice-into_bytes f.priority [] h)
