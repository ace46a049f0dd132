-- ===== src/H2/Frame/Settings.antt =====
-- The conversions of `SettingsFrame` of src/http2/frame.rs.
pub mod RoundTrip
use qhttp.Base.{
  ℕ, ◌≡◌, refl, Bool, true, false, not, List, [], ◌∷◌, ◌++◌, Option, none, some, ◌==◌,
  if◌then◌else◌, slice, Result, ok, err, or_panic, or_err, refuse_if, ◌>>=◌, ◌>>◌,
}
use qhttp.Base.U16
use qhttp.Base.U32
use qhttp.H2.Error.{ErrorCode, H2Error, H2Result}
use qhttp.H2.Crates.{FrameType, SettingsIdent, ident_number, Crates, flag_ack}
use qhttp.H2.Settings.{Settings, SettingsFrame}
use qhttp.H2.Frame.{Frame, expect_type}

-- `Default for SettingsFrame`, which is derived.
abbrev pub default_frame : SettingsFrame
default_frame = record {
  ack = false;
  header_table_size = none;
  enable_push = none;
  max_concurrent_streams = none;
  initial_window_size = none;
  max_frame_size = none;
  max_header_list_size = none;
}

-- `From<Settings> for SettingsFrame`
unfoldable pub from_settings : Settings → SettingsFrame
from_settings s = record {
  ack = false;
  header_table_size = some s.header_table_size;
  enable_push = some s.enable_push;
  max_concurrent_streams = s.max_concurrent_streams;
  initial_window_size = some s.initial_window_size;
  max_frame_size = some s.max_frame_size;
  max_header_list_size = s.max_header_list_size;
}

abbrev pub protocol_error : H2Error
protocol_error = H2Error.connection ErrorCode.protocol_error

-- `if field.is_some() { return Err(…) }`: no setting may be sent twice.
abbrev pub refuse_twice {ℓ} : {A : Type ℓ} → Option A → H2Result (Unit {0})
refuse_twice none = ok tt
refuse_twice (some a) = err protocol_error

-- The `match ident` of the parsing loop.
unfoldable pub store_setting : SettingsFrame → SettingsIdent → ℕ → H2Result SettingsFrame
store_setting s SettingsIdent.header_table_size value = do
  refuse_twice s.header_table_size
  ok (record s { header_table_size = some value })
store_setting s SettingsIdent.enable_push value = do
  refuse_twice s.enable_push
  if value == 1
      then ok (record s { enable_push = some true })
      else (if value == 0 then ok (record s { enable_push = some false }) else err protocol_error)
store_setting s SettingsIdent.max_concurrent_streams value = do
  refuse_twice s.max_concurrent_streams
  ok (record s { max_concurrent_streams = some value })
store_setting s SettingsIdent.initial_window_size value = do
  refuse_twice s.initial_window_size
  ok (record s { initial_window_size = some value })
store_setting s SettingsIdent.max_frame_size value = do
  refuse_twice s.max_frame_size
  ok (record s { max_frame_size = some value })
store_setting s SettingsIdent.max_header_list_size value = do
  refuse_twice s.max_header_list_size
  ok (record s { max_header_list_size = some value })

-- `payload.chunks_exact(6)`: a shorter rest is left out.
abbrev pub chunks_exact_6 : List ℕ → List (List ℕ)
chunks_exact_6 (a ∷ b ∷ c ∷ d ∷ e ∷ f ∷ rest) = (a ∷ b ∷ c ∷ d ∷ e ∷ f ∷ []) ∷ chunks_exact_6 rest
chunks_exact_6 _ = []

-- `payload.extend_from_slice(…)` of an identifier and of a value.
abbrev pub setting_bytes : SettingsIdent → Option ℕ → List ℕ
setting_bytes ident none = []
setting_bytes ident (some value) = U16.to_be_bytes (ident_number ident) ++ U32.to_be_bytes value

-- `if value { 1u32 } else { 0u32 }`
abbrev pub push_value : Option Bool → Option ℕ
push_value none = none
push_value (some value) = some (if value then 1 else 0)

module _ (lib : Crates) where
  -- The body of the parsing loop, on a chunk of six bytes.
  unfoldable pub read_setting : SettingsFrame → List ℕ → H2Result SettingsFrame
  read_setting s chunk = do
    ident_bytes ← or_panic (slice chunk 0 2)
    number ← or_err (U16.from_be_bytes ident_bytes) (H2Error.connection ErrorCode.internal_error)
    ident ← or_err (lib.settings_ident.from number) protocol_error
    value_bytes ← or_panic (slice chunk 2 6)
    value ← or_err (U32.from_be_bytes value_bytes) (H2Error.connection ErrorCode.internal_error)
    store_setting s ident value

  unfoldable pub read_settings : SettingsFrame → List (List ℕ) → H2Result SettingsFrame
  read_settings s [] = ok s
  read_settings s (chunk ∷ chunks) = read_setting s chunk >>= λ s'. read_settings s' chunks

  unfoldable pub try_from : Frame → H2Result SettingsFrame
  try_from frame = do
    expect_type frame FrameType.settings
    let ack = lib.flags.contains frame.header.flags flag_ack
    let s : SettingsFrame = record default_frame { ack = ack }
    if ack
        then (elim frame.payload [
          | [] ↦ ok s
          | _ ↦ err (H2Error.connection ErrorCode.frame_size_error)
        ])
        else read_settings s (chunks_exact_6 frame.payload)

  unfoldable pub into_frame : SettingsFrame → Frame
  into_frame f = record {
    header = record {
      type = FrameType.settings;
      flags = if f.ack then lib.flags.union 0 flag_ack else 0;
      stream = 0;
    };
    payload =
        setting_bytes SettingsIdent.header_table_size f.header_table_size
        ++ (setting_bytes SettingsIdent.enable_push (push_value f.enable_push)
            ++ (setting_bytes SettingsIdent.max_concurrent_streams f.max_concurrent_streams
                ++ (setting_bytes SettingsIdent.initial_window_size f.initial_window_size
                    ++ (setting_bytes SettingsIdent.max_frame_size f.max_frame_size
                        ++ setting_bytes SettingsIdent.max_header_list_size
                            f.max_header_list_size))));
  }
