-- ===== src/Base/U64.antt =====
-- The big-endian bytes of a `u64`: those of its upper half, then those of its lower half.
use Prim.Native.Nat.{ℕ, ◌+◌, ◌*◌, ◌/◌, ◌%◌, ◌^◌}
use mathlib.Core.Path.{◌≡◌, ap}
use mathlib.Core.List.{List, [], ◌∷◌, ◌++◌}
use mathlib.Core.Option.{Option, none, some}
use native.Mathlib.Omega.{arith}
use qhttp.Base.Bytes.{IsU64}
use qhttp.Base.U32

-- `u64::to_be_bytes`
abbrev pub to_be_bytes : ℕ → List ℕ
to_be_bytes n = U32.to_be_bytes (n / 2 ^ 32) ++ U32.to_be_bytes (n % 2 ^ 32)

-- `u64::from_be_bytes` of a slice converted to `[u8; 8]`, which fails at any other length.
abbrev pub from_be_bytes : List ℕ → Option ℕ
from_be_bytes (a ∷ b ∷ c ∷ d ∷ e ∷ f ∷ g ∷ h ∷ []) =
    some (
      (a * 2 ^ 24 + b * 2 ^ 16 + c * 2 ^ 8 + d) * 2 ^ 32
      + (e * 2 ^ 24 + f * 2 ^ 16 + g * 2 ^ 8 + h))
from_be_bytes _ = none

pub from_be_bytes-to_be_bytes : (n : ℕ) → IsU64 n → from_be_bytes (to_be_bytes n) ≡ some n
from_be_bytes-to_be_bytes n h = ap some (
    omega (
      arith,
      U32.be_bytes_value (n / 2 ^ 32) (omega arith),
      U32.be_bytes_value (n % 2 ^ 32) (omega arith),
    ))
