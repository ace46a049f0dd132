-- ===== src/Base/U32.antt =====
-- The big-endian bytes of a `u32`.
use Prim.Native.Nat.{ℕ, ◌+◌, ◌*◌, ◌/◌, ◌%◌, ◌^◌}
use mathlib.Core.Path.{◌≡◌, ap}
use mathlib.Core.List.{List, [], ◌∷◌}
use mathlib.Core.Option.{Option, none, some}
use native.Mathlib.Omega.{arith}
use qhttp.Base.Bytes.{IsU32}

-- `u32::to_be_bytes`
abbrev pub to_be_bytes : ℕ → List ℕ
to_be_bytes n = (n / 2 ^ 24 % 256) ∷ (n / 2 ^ 16 % 256) ∷ (n / 2 ^ 8 % 256) ∷ (n % 256) ∷ []

-- `u32::from_be_bytes` of a slice converted to `[u8; 4]`, which fails at any other length.
abbrev pub from_be_bytes : List ℕ → Option ℕ
from_be_bytes (a ∷ b ∷ c ∷ d ∷ []) = some (a * 2 ^ 24 + b * 2 ^ 16 + c * 2 ^ 8 + d)
from_be_bytes _ = none

pub be_bytes_value :
    (n : ℕ)
    → IsU32 n
    → n / 2 ^ 24 % 256 * 2 ^ 24 + n / 2 ^ 16 % 256 * 2 ^ 16 + n / 2 ^ 8 % 256 * 2 ^ 8 + n % 256 ≡ n
be_bytes_value n h = omega arith

pub from_be_bytes-to_be_bytes : (n : ℕ) → IsU32 n → from_be_bytes (to_be_bytes n) ≡ some n
from_be_bytes-to_be_bytes n h = ap some (be_bytes_value n h)
