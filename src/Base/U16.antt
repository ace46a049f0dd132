-- ===== src/Base/U16.antt =====
-- The big-endian bytes of a `u16`.
use Prim.Native.Nat.{ℕ, ◌+◌, ◌*◌, ◌/◌, ◌%◌, ◌^◌}
use mathlib.Core.Path.{◌≡◌, ap}
use mathlib.Core.List.{List, [], ◌∷◌}
use mathlib.Core.Option.{Option, none, some}
use native.Mathlib.Omega.{arith}
use qhttp.Base.Bytes.{IsU16}

-- `u16::to_be_bytes`
abbrev pub to_be_bytes : ℕ → List ℕ
to_be_bytes n = (n / 2 ^ 8 % 256) ∷ (n % 256) ∷ []

-- `u16::from_be_bytes` of a slice converted to `[u8; 2]`, which fails at any other length.
abbrev pub from_be_bytes : List ℕ → Option ℕ
from_be_bytes (a ∷ b ∷ []) = some (a * 2 ^ 8 + b)
from_be_bytes _ = none

pub be_bytes_value : (n : ℕ) → IsU16 n → n / 2 ^ 8 % 256 * 2 ^ 8 + n % 256 ≡ n
be_bytes_value n h = omega arith

pub from_be_bytes-to_be_bytes : (n : ℕ) → IsU16 n → from_be_bytes (to_be_bytes n) ≡ some n
from_be_bytes-to_be_bytes n h = ap some (be_bytes_value n h)
