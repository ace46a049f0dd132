-- ===== src/H2/Frame/Receive/Conversions.antt =====
-- Which frames `try_from` of each type can panic on.
use qhttp.Base.{
  ℕ, ◌≡◌, ◌≢◌, ◌≤◌, refl, false, List, [], ◌∷◌, some, arith, length, panic, inl, inr, slice-some,
  Option-cases, ◌*◌, ◌+◌, ◌^◌, Result-cases,
}
use qhttp.Base.U32
use qhttp.Base.U64
use qhttp.H2.Crates.{SettingsIdent, Crates, flag_ack, flag_padded, flag_priority}
use qhttp.H2.Settings.{SettingsFrame}
use qhttp.H2.Frame.{Frame}
use qhttp.H2.Frame.Data
use qhttp.H2.Frame.Headers
use qhttp.H2.Frame.Priority
use qhttp.H2.Frame.RstStream
use qhttp.H2.Frame.Settings
use qhttp.H2.Frame.Ping
use qhttp.H2.Frame.GoAway
use qhttp.H2.Frame.WindowUpdate

four_bytes : (bytes : List ℕ) → length bytes ≡ 4 → (n : ℕ) × (U32.from_be_bytes bytes ≡ some n)
four_bytes (a ∷ b ∷ c ∷ d ∷ []) h = (_, refl)
four_bytes [] h = absurd (omega arith)
four_bytes (a ∷ []) h = absurd (omega arith)
four_bytes (a ∷ b ∷ []) h = absurd (omega arith)
four_bytes (a ∷ b ∷ c ∷ []) h = absurd (omega arith)
four_bytes (a ∷ b ∷ c ∷ d ∷ e ∷ r) h = absurd (omega arith)

eight_bytes : (bytes : List ℕ) → length bytes ≡ 8 → (n : ℕ) × (U64.from_be_bytes bytes ≡ some n)
eight_bytes (a ∷ b ∷ c ∷ d ∷ e ∷ f ∷ g ∷ i ∷ []) h = (_, refl)
eight_bytes [] h = absurd (omega arith)
eight_bytes (a ∷ []) h = absurd (omega arith)
eight_bytes (a ∷ b ∷ []) h = absurd (omega arith)
eight_bytes (a ∷ b ∷ c ∷ []) h = absurd (omega arith)
eight_bytes (a ∷ b ∷ c ∷ d ∷ []) h = absurd (omega arith)
eight_bytes (a ∷ b ∷ c ∷ d ∷ e ∷ []) h = absurd (omega arith)
eight_bytes (a ∷ b ∷ c ∷ d ∷ e ∷ f ∷ []) h = absurd (omega arith)
eight_bytes (a ∷ b ∷ c ∷ d ∷ e ∷ f ∷ g ∷ []) h = absurd (omega arith)
eight_bytes (a ∷ b ∷ c ∷ d ∷ e ∷ f ∷ g ∷ i ∷ j ∷ r) h = absurd (omega arith)

priority_bytes-ne-panic : (bytes : List ℕ) → 5 ≤ length bytes → Priority.from_slice bytes ≢ panic
unfolding Priority.from_slice
priority_bytes-ne-panic (a ∷ b ∷ c ∷ d ∷ e ∷ r) h = ground arith
priority_bytes-ne-panic [] h = absurd (omega arith)
priority_bytes-ne-panic (a ∷ []) h = absurd (omega arith)
priority_bytes-ne-panic (a ∷ b ∷ []) h = absurd (omega arith)
priority_bytes-ne-panic (a ∷ b ∷ c ∷ []) h = absurd (omega arith)
priority_bytes-ne-panic (a ∷ b ∷ c ∷ d ∷ []) h = absurd (omega arith)

pub priority-ne-panic : (frame : Frame) → length frame.payload ≡ 5 → Priority.try_from frame ≢ panic
unfolding Priority.try_from
priority-ne-panic frame h = ground (arith, priority_bytes-ne-panic frame.payload (omega arith))

pub window_update-ne-panic :
    (frame : Frame) → length frame.payload ≡ 4 → WindowUpdate.try_from frame ≢ panic
unfolding WindowUpdate.try_from
window_update-ne-panic frame h =
    let (bytes, e, l) = slice-some frame.payload 0 4 (omega arith) (omega arith) in
    let (n, e') = four_bytes bytes l in ground arith

module _ (lib : Crates) where
  pub data-ne-panic : (frame : Frame) → Data.try_from lib frame ≢ panic
  unfolding Data.try_from
  data-ne-panic frame = ground arith

  pub rst_stream-ne-panic :
      (frame : Frame) → length frame.payload ≡ 4 → RstStream.try_from lib frame ≢ panic
  unfolding RstStream.try_from
  rst_stream-ne-panic frame h = ground (arith, four_bytes frame.payload h)

  pub ping-ne-panic : (frame : Frame) → length frame.payload ≡ 8 → Ping.try_from lib frame ≢ panic
  unfolding Ping.try_from
  ping-ne-panic frame h = ground (arith, eight_bytes frame.payload h)

  pub go_away-ne-panic :
      (frame : Frame) → 8 ≤ length frame.payload → GoAway.try_from lib frame ≢ panic
  unfolding GoAway.try_from
  go_away-ne-panic frame h =
      let (id_bytes, e, l) = slice-some frame.payload 0 4 (omega arith) (omega arith) in
      let (id, e') = four_bytes id_bytes l in
      let (code_bytes, f, k) = slice-some frame.payload 4 8 (omega arith) (omega arith) in
      let (code, f') = four_bytes code_bytes k in ground arith

  store_setting-ne-panic :
      (s : SettingsFrame) (ident : SettingsIdent) (value : ℕ)
      → Settings.store_setting s ident value ≢ panic
  unfolding Settings.store_setting
  store_setting-ne-panic s SettingsIdent.header_table_size value = ground arith
  store_setting-ne-panic s ident value = ground arith

  read_setting-ne-panic :
      (s : SettingsFrame) (a b c d e f : ℕ)
      → Settings.read_setting lib s (a ∷ b ∷ c ∷ d ∷ e ∷ f ∷ []) ≢ panic
  unfolding Settings.read_setting
  read_setting-ne-panic s a b c d e f =
      elim (Option-cases (lib.settings_ident.from (a * 2 ^ 8 + b))) [
        | inl x ↦ rw x (λ h. cc)
        | inr (ident, x) ↦ rw x (store_setting-ne-panic s ident _)
      ]

  read_settings-ne-panic :
      (payload : List ℕ) (s : SettingsFrame)
      → Settings.read_settings lib s (Settings.chunks_exact_6 payload) ≢ panic
  unfolding Settings.read_settings
  read_settings-ne-panic (a ∷ b ∷ c ∷ d ∷ e ∷ f ∷ rest) s =
      elim (Result-cases (Settings.read_setting lib s (a ∷ b ∷ c ∷ d ∷ e ∷ f ∷ []))
        (read_setting-ne-panic s a b c d e f)) [
          | inl (t, x) ↦ rw x (read_settings-ne-panic rest t)
          | inr (error, x) ↦ rw x (λ h. cc)
        ]
  read_settings-ne-panic [] s = λ h. cc
  read_settings-ne-panic payload s = λ h. cc

  pub settings-ne-panic : (frame : Frame) → Settings.try_from lib frame ≢ panic
  unfolding Settings.try_from
  settings-ne-panic frame = ground (
    arith,
    read_settings-ne-panic frame.payload
        (record Settings.default_frame { ack = lib.flags.contains frame.header.flags flag_ack }),
  )

  pub headers-ne-panic :
      (frame : Frame)
      → lib.flags.contains frame.header.flags flag_priority ≡ false
      → Headers.try_from lib frame ≢ panic
  unfolding Headers.try_from
  headers-ne-panic frame h = ground arith

  pub headers_priority-ne-panic :
      (frame : Frame)
      → lib.flags.contains frame.header.flags flag_padded ≡ false
      → 5 ≤ length frame.payload
      → Headers.try_from lib frame ≢ panic
  unfolding Headers.try_from
  headers_priority-ne-panic frame h k =
      let (bytes, e, l) = slice-some frame.payload 0 5 (omega arith) (omega arith) in
      ground (arith, priority_bytes-ne-panic bytes (omega arith))
