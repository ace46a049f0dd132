-- ===== src/H2/Crates/Examples.antt =====
-- A value of the parameters: the assumptions on the other crates can be met.
use qhttp.Base.{ℕ, ◌≡◌, refl, Option, some, none, bit_and, bit_or, ◌==◌, if◌then◌else◌, arith}
use qhttp.H2.Error.{ErrorCode, code_number}
use qhttp.H2.Crates.{FrameType, type_number, SettingsIdent, ident_number}
use qhttp.H2.Crates.{Crates}

abbrev type_from : ℕ → Option FrameType
type_from n =
    if n == 0
    then some FrameType.data_frame
    else if n == 1
    then some FrameType.headers
    else if n == 2
    then some FrameType.priority
    else if n == 3
    then some FrameType.rst_stream
    else if n == 4
    then some FrameType.settings
    else if n == 5
    then some FrameType.push_promise
    else if n == 6
    then some FrameType.ping
    else if n == 7
    then some FrameType.go_away
    else if n == 8
    then some FrameType.window_update
    else if n == 9
    then some FrameType.continuation
    else none

pub type_from-number : (t : FrameType) → type_from (type_number t) ≡ some t
type_from-number t = ground arith

pub type_number-from : (n : ℕ) (t : FrameType) → type_from n ≡ some t → type_number t ≡ n
type_number-from n t h = ground arith

abbrev ident_from : ℕ → Option SettingsIdent
ident_from n =
    if n == 1
    then some SettingsIdent.header_table_size
    else if n == 2
    then some SettingsIdent.enable_push
    else if n == 3
    then some SettingsIdent.max_concurrent_streams
    else if n == 4
    then some SettingsIdent.initial_window_size
    else if n == 5
    then some SettingsIdent.max_frame_size
    else if n == 6
    then some SettingsIdent.max_header_list_size
    else none

pub ident_from-number : (i : SettingsIdent) → ident_from (ident_number i) ≡ some i
ident_from-number i = ground arith

pub ident_number-from : (n : ℕ) (i : SettingsIdent) → ident_from n ≡ some i → ident_number i ≡ n
ident_number-from n i h = ground arith

abbrev code_from : ℕ → Option ErrorCode
code_from n =
    if n == 0
    then some ErrorCode.no_error
    else if n == 1
    then some ErrorCode.protocol_error
    else if n == 2
    then some ErrorCode.internal_error
    else if n == 3
    then some ErrorCode.flow_control_error
    else if n == 4
    then some ErrorCode.settings_timeout
    else if n == 5
    then some ErrorCode.stream_closed
    else if n == 6
    then some ErrorCode.frame_size_error
    else if n == 7
    then some ErrorCode.refused_stream
    else if n == 8
    then some ErrorCode.cancel
    else if n == 9
    then some ErrorCode.compresssion_error
    else if n == 10
    then some ErrorCode.connect_error
    else if n == 11
    then some ErrorCode.enhance_your_calm
    else if n == 12
    then some ErrorCode.inadequate_security
    else if n == 13
    then some ErrorCode.http11_required
    else none

pub code_from-number : (c : ErrorCode) → code_from (code_number c) ≡ some c
code_from-number c = ground arith

pub code_number-from : (n : ℕ) (c : ErrorCode) → code_from n ≡ some c → code_number c ≡ n
code_number-from n c h = ground arith

abbrev pub crates : Crates
crates = record {
  flags = record {
    contains = λ bits other. bit_and bits other == other;
    union = bit_or;
    from_bits_truncate = λ bits. bit_and bits 0b101101;
    contains_lem = λ bits other. refl;
    union_lem = λ bits other. refl;
    from_bits_truncate_lem = λ bits. refl;
  };
  frame_type = record {
    from = type_from;
    from-number = type_from-number;
    number-from = type_number-from;
  };
  settings_ident = record {
    from = ident_from;
    from-number = ident_from-number;
    number-from = ident_number-from;
  };
  error_code = record {
    from = code_from;
    from-number = code_from-number;
    number-from = code_number-from;
  };
}
