-- ===== src/H2/Crates.antt =====
-- What http2 takes from other crates, as parameters with their documented behaviour: the
-- conversions that num_derive generates, and the methods that the bitflags macro generates for
-- `Flags`. Here too are the enumerations of frame.rs and settings.rs that they are generated for.
pub mod Examples
use qhttp.Base.{ℕ, ◌≡◌, Bool, Option, some, bit_and, bit_or, ◌==◌, ◌^◌}
use qhttp.H2.Error.{ErrorCode, code_number}

-- `DATA`; the word `data` is reserved here.
pub data FrameType : Type 0 where
  data_frame headers priority rst_stream settings : FrameType
  push_promise ping go_away window_update continuation : FrameType

-- `frame_type as u8`
abbrev pub type_number : FrameType → ℕ
type_number data_frame = 0
type_number headers = 1
type_number priority = 2
type_number rst_stream = 3
type_number settings = 4
type_number push_promise = 5
type_number ping = 6
type_number go_away = 7
type_number window_update = 8
type_number continuation = 9

-- The derived `PartialEq` of `FrameType`.
abbrev pub same_type : FrameType → FrameType → Bool
same_type a b = type_number a == type_number b

pub data SettingsIdent : Type 0 where
  header_table_size enable_push max_concurrent_streams : SettingsIdent
  initial_window_size max_frame_size max_header_list_size : SettingsIdent

-- `ident as u16`
abbrev pub ident_number : SettingsIdent → ℕ
ident_number header_table_size = 1
ident_number enable_push = 2
ident_number max_concurrent_streams = 3
ident_number initial_window_size = 4
ident_number max_frame_size = 5
ident_number max_header_list_size = 6

-- The bits of `Flags`; END_STREAM and ACK are one bit.
abbrev pub flag_end_stream : ℕ
flag_end_stream = 1

abbrev pub flag_ack : ℕ
flag_ack = 1

abbrev pub flag_end_headers : ℕ
flag_end_headers = 2 ^ 2

abbrev pub flag_padded : ℕ
flag_padded = 2 ^ 3

abbrev pub flag_priority : ℕ
flag_priority = 2 ^ 5

-- `FromPrimitive::from_u8`, `from_u16` or `from_u32`, derived for an enumeration.
pub record FromPrimitive {A : Type 0} (number : A → ℕ) : Type 0 where
  pub from : ℕ → Option A
  pub from-number : (a : A) → from (number a) ≡ some a
  pub number-from : (n : ℕ) (a : A) → from n ≡ some a → number a ≡ n

-- The methods of `Flags`, a `u8`. `from_bits_truncate` unsets the unknown bits.
pub record BitFlags : Type 0 where
  pub contains : ℕ → ℕ → Bool
  pub union : ℕ → ℕ → ℕ
  pub from_bits_truncate : ℕ → ℕ
  pub contains_lem : (bits other : ℕ) → contains bits other ≡ (bit_and bits other == other)
  pub union_lem : (bits other : ℕ) → union bits other ≡ bit_or bits other
  pub from_bits_truncate_lem : (bits : ℕ) → from_bits_truncate bits ≡ bit_and bits 0b101101

pub record Crates : Type 0 where
  pub flags : BitFlags
  pub frame_type : FromPrimitive type_number
  pub settings_ident : FromPrimitive ident_number
  pub error_code : FromPrimitive code_number
