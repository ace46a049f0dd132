-- ===== src/H2/Settings/Apply.antt =====
-- Applying a SETTINGS frame: the bounds it keeps, the settings it leaves, the frames it refuses.
use qhttp.Base.{ℕ, ◌+◌, ◌≡◌, ◌≤◌, ◌<◌, Option, none, some, arith, ok, err, ◌⊎◌}
use qhttp.Base.Int.{ℤ, pos_part, neg_part, sub_ℕ}
use qhttp.H2.Error.{ErrorCode, H2Error}
use qhttp.H2.Settings.{
  Settings, SettingsFrame, apply_settings_frame, max_frame_size_min, max_frame_size_max,
  window_size_max,
}

-- The limits of RFC 7540, section 6.5.2.
pub record IsValid (s : Settings) : Type 0 where
  pub frame_min : max_frame_size_min ≤ s.max_frame_size
  pub frame_max : s.max_frame_size ≤ max_frame_size_max
  pub window : s.initial_window_size ≤ window_size_max

abbrev pub get_or {ℓ} : {A : Type ℓ} → Option A → A → A
get_or none a = a
get_or (some b) a = b

abbrev pub or_else {ℓ} : {A : Type ℓ} → Option A → Option A → Option A
or_else none b = b
or_else (some a) b = some a

-- What the frame asks for: each value of the frame, and the old one where it has none.
abbrev pub overridden : Settings → SettingsFrame → Settings
overridden s f = record {
  header_table_size = get_or f.header_table_size s.header_table_size;
  enable_push = get_or f.enable_push s.enable_push;
  max_concurrent_streams = or_else f.max_concurrent_streams s.max_concurrent_streams;
  initial_window_size = get_or f.initial_window_size s.initial_window_size;
  max_frame_size = get_or f.max_frame_size s.max_frame_size;
  max_header_list_size = or_else f.max_header_list_size s.max_header_list_size;
}

-- From valid settings, a frame whose outcome would be valid is applied: every value of the frame
-- is taken, every other setting kept, and the difference leads from the old initial window size to
-- the new one.
pub apply_settings_frame_ok :
    (s : Settings) (f : SettingsFrame)
    → IsValid s
    → IsValid (overridden s f)
    → (dif : ℤ) × (apply_settings_frame s f ≡ ok (overridden s f, dif))
      × (pos_part dif + s.initial_window_size ≡ neg_part dif + (overridden s f).initial_window_size)
unfolding apply_settings_frame
apply_settings_frame_ok s f v w =
    (sub_ℕ (overridden s f).initial_window_size s.initial_window_size, ground arith, ground arith)

-- Whatever the frame holds, settings that were valid are valid after it.
pub apply_settings_frame-IsValid :
    (s : Settings) (f : SettingsFrame) {t : Settings} {dif : ℤ}
    → IsValid s
    → apply_settings_frame s f ≡ ok (t, dif)
    → IsValid t
unfolding apply_settings_frame
apply_settings_frame-IsValid s f v h = ground arith

-- A frame that asks for a frame size out of bounds is refused with PROTOCOL_ERROR, whatever else it
-- holds.
pub apply_settings_frame_frame_size :
    (s : Settings) (f : SettingsFrame) (size : ℕ)
    → f.max_frame_size ≡ some size
    → (size < max_frame_size_min) ⊎ (max_frame_size_max < size)
    → apply_settings_frame s f ≡ err (H2Error.connection ErrorCode.protocol_error)
unfolding apply_settings_frame
apply_settings_frame_frame_size s f size e h = ground arith

-- On valid settings, a frame that asks for an initial window size above 2^31 - 1, and for no
-- illegal frame size, is refused with FLOW_CONTROL_ERROR.
pub apply_settings_frame_window :
    (s : Settings) (f : SettingsFrame) (size : ℕ)
    → IsValid s
    → f.initial_window_size ≡ some size
    → window_size_max < size
    → max_frame_size_min ≤ get_or f.max_frame_size s.max_frame_size
    → get_or f.max_frame_size s.max_frame_size ≤ max_frame_size_max
    → apply_settings_frame s f ≡ err (H2Error.connection ErrorCode.flow_control_error)
unfolding apply_settings_frame
apply_settings_frame_window s f size v e h lo hi = ground arith
