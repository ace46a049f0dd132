-- ===== src/H2/Frame/Settings/RoundTrip.antt =====
-- A SETTINGS frame is read back as it was written.
use qhttp.Base.{
  ℕ, ◌≡◌, refl, sym, ap, subst, ◌∙◌, Bool, true, false, List, [], ◌++◌, append-nil, Option, none,
  some, arith, ◌<◌, ◌^◌, ◌⊎◌, inl, inr, if◌then◌else◌, ok, ◌>>=◌, IsU32,
}
use qhttp.Base.U16
use qhttp.Base.U32
use qhttp.H2.Crates.{FrameType, SettingsIdent, ident_number, Crates, flag_ack}
use qhttp.H2.Settings.{SettingsFrame}
use qhttp.H2.Frame.Settings.{
  default_frame, store_setting, chunks_exact_6, setting_bytes, push_value, read_setting,
  read_settings, try_from, into_frame,
}

abbrev FitsU32 : Option ℕ → Type 0
FitsU32 none = Unit
FitsU32 (some n) = IsU32 n

-- Every number of the frame is a `u32`.
pub record IsWritable (f : SettingsFrame) : Type 0 where
  pub header_table_size : FitsU32 f.header_table_size
  pub max_concurrent_streams : FitsU32 f.max_concurrent_streams
  pub initial_window_size : FitsU32 f.initial_window_size
  pub max_frame_size : FitsU32 f.max_frame_size
  pub max_header_list_size : FitsU32 f.max_header_list_size

ident_number-IsU16 : (ident : SettingsIdent) → ident_number ident < 2 ^ 16
ident_number-IsU16 ident = ground arith

module _ (lib : Crates) where
  -- One setting on the wire is one round of the loop.
  read-setting_bytes :
      (s : SettingsFrame) (ident : SettingsIdent) (value : ℕ) (rest : List ℕ)
      → IsU32 value
      → read_settings lib s (chunks_exact_6 (setting_bytes ident (some value) ++ rest))
        ≡ (store_setting s ident value >>= λ s'. read_settings lib s' (chunks_exact_6 rest))
  unfolding read_settings read_setting
  read-setting_bytes s ident value rest h = rw (
    U16.be_bytes_value (ident_number ident) (ident_number-IsU16 ident),
    lib.settings_ident.from-number ident,
    U32.be_bytes_value value h,
  )

  read-header_table_size :
      (s : SettingsFrame) (o : Option ℕ) (rest : List ℕ)
      → FitsU32 o
      → read_settings lib
          (record s { header_table_size = none })
          (chunks_exact_6 (setting_bytes SettingsIdent.header_table_size o ++ rest))
        ≡ read_settings lib (record s { header_table_size = o }) (chunks_exact_6 rest)
  unfolding store_setting
  read-header_table_size s none rest h = refl
  read-header_table_size s (some value) rest h =
      read-setting_bytes (record s { header_table_size = none }) SettingsIdent.header_table_size
        value rest h

  read-max_concurrent_streams :
      (s : SettingsFrame) (o : Option ℕ) (rest : List ℕ)
      → FitsU32 o
      → read_settings lib
          (record s { max_concurrent_streams = none })
          (chunks_exact_6 (setting_bytes SettingsIdent.max_concurrent_streams o ++ rest))
        ≡ read_settings lib (record s { max_concurrent_streams = o }) (chunks_exact_6 rest)
  unfolding store_setting
  read-max_concurrent_streams s none rest h = refl
  read-max_concurrent_streams s (some value) rest h =
      read-setting_bytes (record s { max_concurrent_streams = none })
        SettingsIdent.max_concurrent_streams value rest h

  read-initial_window_size :
      (s : SettingsFrame) (o : Option ℕ) (rest : List ℕ)
      → FitsU32 o
      → read_settings lib
          (record s { initial_window_size = none })
          (chunks_exact_6 (setting_bytes SettingsIdent.initial_window_size o ++ rest))
        ≡ read_settings lib (record s { initial_window_size = o }) (chunks_exact_6 rest)
  unfolding store_setting
  read-initial_window_size s none rest h = refl
  read-initial_window_size s (some value) rest h =
      read-setting_bytes (record s { initial_window_size = none }) SettingsIdent.initial_window_size
        value rest h

  read-max_frame_size :
      (s : SettingsFrame) (o : Option ℕ) (rest : List ℕ)
      → FitsU32 o
      → read_settings lib
          (record s { max_frame_size = none })
          (chunks_exact_6 (setting_bytes SettingsIdent.max_frame_size o ++ rest))
        ≡ read_settings lib (record s { max_frame_size = o }) (chunks_exact_6 rest)
  unfolding store_setting
  read-max_frame_size s none rest h = refl
  read-max_frame_size s (some value) rest h =
      read-setting_bytes (record s { max_frame_size = none }) SettingsIdent.max_frame_size value
        rest h

  read-max_header_list_size :
      (s : SettingsFrame) (o : Option ℕ) (rest : List ℕ)
      → FitsU32 o
      → read_settings lib
          (record s { max_header_list_size = none })
          (chunks_exact_6 (setting_bytes SettingsIdent.max_header_list_size o ++ rest))
        ≡ read_settings lib (record s { max_header_list_size = o }) (chunks_exact_6 rest)
  unfolding store_setting
  read-max_header_list_size s none rest h = refl
  read-max_header_list_size s (some value) rest h =
      read-setting_bytes (record s { max_header_list_size = none })
        SettingsIdent.max_header_list_size value rest h

  read-enable_push :
      (s : SettingsFrame) (o : Option Bool) (rest : List ℕ)
      → read_settings lib
          (record s { enable_push = none })
          (chunks_exact_6 (setting_bytes SettingsIdent.enable_push (push_value o) ++ rest))
        ≡ read_settings lib (record s { enable_push = o }) (chunks_exact_6 rest)
  unfolding store_setting
  read-enable_push s none rest = refl
  read-enable_push s (some true) rest =
      read-setting_bytes (record s { enable_push = none }) SettingsIdent.enable_push 1 rest
        (omega arith)
  read-enable_push s (some false) rest =
      read-setting_bytes (record s { enable_push = none }) SettingsIdent.enable_push 0 rest
        (omega arith)

  read_settings-nil : (s : SettingsFrame) → read_settings lib s [] ≡ ok s
  unfolding read_settings
  read_settings-nil s = refl

  -- The whole payload of a frame that is no acknowledgement.
  read-payload :
      (f : SettingsFrame)
      → IsWritable f
      → f.ack ≡ false
      → read_settings lib default_frame (chunks_exact_6 (into_frame lib f).payload) ≡ ok f
  unfolding into_frame
  read-payload f w a =
      read-header_table_size default_frame f.header_table_size _ w.header_table_size
      ∙ read-enable_push (record default_frame { header_table_size = f.header_table_size })
          f.enable_push _
      ∙ read-max_concurrent_streams
          (record f {
            ack = false;
            initial_window_size = none;
            max_frame_size = none;
            max_header_list_size = none;
          })
          f.max_concurrent_streams _ w.max_concurrent_streams
      ∙ read-initial_window_size
          (record f { ack = false; max_frame_size = none; max_header_list_size = none })
          f.initial_window_size _ w.initial_window_size
      ∙ read-max_frame_size (record f { ack = false; max_header_list_size = none }) f.max_frame_size
          _ w.max_frame_size
      ∙ ap
          (λ (bytes : List ℕ).
            read_settings lib (record f { ack = false; max_header_list_size = none })
              (chunks_exact_6 bytes))
          (sym
            (append-nil (setting_bytes SettingsIdent.max_header_list_size f.max_header_list_size)))
      ∙ read-max_header_list_size (record f { ack = false }) f.max_header_list_size []
          w.max_header_list_size
      ∙ (read_settings-nil (record f { ack = false })
          ∙ ap (λ (b : Bool). ok (record f { ack = b })) (sym a))

  flags_of_frame :
      (f : SettingsFrame)
      → ((into_frame lib f).header.flags ≡ (if f.ack then lib.flags.union 0 flag_ack else 0))
        × ((into_frame lib f).header.type ≡ FrameType.settings)
  unfolding into_frame
  flags_of_frame f = (refl, refl)

  contains-ack :
      (ack : Bool)
      → lib.flags.contains (if ack then lib.flags.union 0 flag_ack else 0) flag_ack ≡ ack
  contains-ack true = rw (lib.flags.union_lem 0 1, lib.flags.contains_lem 1 1)
  contains-ack false = lib.flags.contains_lem 0 1

  try_from-ack :
      try_from lib (into_frame lib (record default_frame { ack = true }))
      ≡ ok (record default_frame { ack = true })
  unfolding try_from into_frame
  try_from-ack = rw (contains-ack true)

  -- A SETTINGS frame that the server writes is read back as it was, if its numbers are `u32`s and
  -- an acknowledgement carries no setting.
  pub try_from-into_frame_settings :
      (f : SettingsFrame)
      → IsWritable f
      → (f.ack ≡ false) ⊎ (f ≡ record default_frame { ack = true })
      → try_from lib (into_frame lib f) ≡ ok f
  unfolding try_from
  try_from-into_frame_settings f w (inl a) =
      ground (arith, flags_of_frame f, contains-ack f.ack, read-payload f w a)
  try_from-into_frame_settings f w (inr e) =
      subst (λ (g : SettingsFrame). try_from lib (into_frame lib g) ≡ ok g) (sym e) try_from-ack
