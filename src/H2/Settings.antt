-- ===== src/H2/Settings.antt =====
-- src/http2/settings.rs: the settings of one side of a connection, and `SettingsFrame` of frame.rs,
-- whose values they take.
pub mod Apply
use qhttp.Base.{
  ℕ, ◌-◌, ◌^◌, Bool, true, ◌||◌, Option, none, some, ltb, leb, if◌then◌else◌, ok, refuse_if, ◌>>=◌,
  ◌>>◌, Result, err,
}
use qhttp.Base.Int.{ℤ, sub_ℕ}
use qhttp.H2.Error.{ErrorCode, H2Error, H2Result}

abbrev pub max_frame_size_min : ℕ
max_frame_size_min = 16_384

abbrev pub max_frame_size_max : ℕ
max_frame_size_max = 16_777_215

abbrev pub window_size_max : ℕ
window_size_max = 2 ^ 31 - 1

pub record Settings : Type 0 where
  pub header_table_size : ℕ
  pub enable_push : Bool
  pub max_concurrent_streams : Option ℕ
  pub initial_window_size : ℕ
  pub max_frame_size : ℕ
  pub max_header_list_size : Option ℕ

-- `Default for Settings`
abbrev pub default_settings : Settings
default_settings = record {
  header_table_size = 4096;
  enable_push = true;
  max_concurrent_streams = none;
  initial_window_size = 65_535;
  max_frame_size = 16_384;
  max_header_list_size = none;
}

pub record SettingsFrame : Type 0 where
  pub ack : Bool
  pub header_table_size : Option ℕ
  pub enable_push : Option Bool
  pub max_concurrent_streams : Option ℕ
  pub initial_window_size : Option ℕ
  pub max_frame_size : Option ℕ
  pub max_header_list_size : Option ℕ

-- The setters; a setter that refuses its value changes nothing.
unfoldable pub set_header_table_size : Settings → ℕ → H2Result Settings
set_header_table_size s value = ok (record s { header_table_size = value })

unfoldable pub set_enable_push : Settings → Bool → H2Result Settings
set_enable_push s value = ok (record s { enable_push = value })

unfoldable pub set_max_concurrent_streams : Settings → ℕ → H2Result Settings
set_max_concurrent_streams s value = ok (record s { max_concurrent_streams = some value })

unfoldable pub set_initial_window_size : Settings → ℕ → H2Result Settings
set_initial_window_size s value =
    if ltb window_size_max value
    then err (H2Error.connection ErrorCode.flow_control_error)
    else ok (record s { initial_window_size = value })

unfoldable pub set_max_frame_size : Settings → ℕ → H2Result Settings
set_max_frame_size s value =
    if ltb value max_frame_size_min || ltb max_frame_size_max value
    then err (H2Error.connection ErrorCode.protocol_error)
    else ok (record s { max_frame_size = value })

unfoldable pub set_max_header_list_size : Settings → ℕ → H2Result Settings
set_max_header_list_size s value = ok (record s { max_header_list_size = some value })

-- `if let Some(value) = field { self.set_…(value)? }`
abbrev pub apply_field {ℓ} :
    {A : Type ℓ} → (Settings → A → H2Result Settings) → Settings → Option A → H2Result Settings
apply_field set s none = ok s
apply_field set s (some value) = set s value

-- `u32` to `i32` by `try_into`, which fails from `2 ^ 31` on.
abbrev pub to_i32 : ℕ → H2Error → H2Result ℕ
to_i32 n e = if ltb n (2 ^ 31) then ok n else err e

-- The new settings and the difference of the initial window sizes. Two non-negative `i32` have a
-- difference that fits `i32`, so `checked_sub` cannot fail.
unfoldable pub apply_settings_frame : Settings → SettingsFrame → H2Result (Settings × ℤ)
unfolding set_header_table_size set_enable_push set_max_concurrent_streams set_initial_window_size
    set_max_frame_size set_max_header_list_size
apply_settings_frame s f = do
  s₁ ← apply_field set_header_table_size s f.header_table_size
  s₂ ← apply_field set_enable_push s₁ f.enable_push
  s₃ ← apply_field set_max_concurrent_streams s₂ f.max_concurrent_streams
  s₄ ← apply_field set_max_frame_size s₃ f.max_frame_size
  s₅ ← apply_field set_max_header_list_size s₄ f.max_header_list_size
  old ← to_i32 s₅.initial_window_size (H2Error.connection ErrorCode.internal_error)
  s₆ ← apply_field set_initial_window_size s₅ f.initial_window_size
  new ← to_i32 s₆.initial_window_size (H2Error.connection ErrorCode.internal_error)
  ok (s₆, sub_ℕ new old)
