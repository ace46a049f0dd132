-- ===== src/H2/Tests.antt =====
-- The theorems on frames and settings at small frames, with the concrete value of the other crates'
-- parameters.
use qhttp.Base.{
  ℕ, Bool, List, ◌==◌, ◌||◌, ◌≡◌, ◌≢◌, ◌↔◌, refl, inl, true, false, [], ◌∷◌, ◌++◌, none, some, ok,
  panic, arith, ◌+◌,
}
use qhttp.Base.Int.{pos, negsuc, ℤ, pos_part, neg_part}
use qhttp.H2.Crates.{FrameType}
use qhttp.H2.Crates.Examples.{crates}
use qhttp.H2.Settings.{SettingsFrame, default_settings, apply_settings_frame}
use qhttp.H2.Settings.Apply.{IsValid, overridden, apply_settings_frame_ok}
use qhttp.H2.Frame.Headers
use qhttp.H2.Frame.Priority
use qhttp.H2.Frame.Settings.{default_frame}
use qhttp.H2.Frame.Settings
use qhttp.H2.Frame.Settings.RoundTrip
use qhttp.H2.Frame.Wire.{FrameHeaderRaw, check_header}
use qhttp.H2.Frame.Wire.Legal.{IsLegal, check_header_iff}
use qhttp.H2.Frame.Receive.{receive}
use qhttp.H2.Frame.Receive.Safety.{receive-ne-panic}
use qhttp.H2.Frame.Receive.Padded.{receive-PaddedPriority}
use qhttp.H2.Flow.{distribute_window}
use qhttp.H2.Flow.Share.{distribute_window-share}

-- A DATA frame of stream 1 that ends the stream.
abbrev data_raw : FrameHeaderRaw
data_raw = record { length = 2; type = 0; flags = 1; stream = 1 }

receive-ne-panic_example : receive crates data_raw (7 ∷ 8 ∷ []) ≢ panic
receive-ne-panic_example = receive-ne-panic crates data_raw (7 ∷ 8 ∷ []) refl (λ class. cc)

check_header_example :
    (check_header FrameType.headers true true 6 1 ≡ ok tt) ↔ IsLegal FrameType.headers true true 6 1
check_header_example = check_header_iff FrameType.headers true true 6 1 (λ e. cc)

-- HEADERS with no padding bytes, a priority and two bytes of a fragment.
abbrev padded_raw : FrameHeaderRaw
padded_raw = record { length = 8; type = 1; flags = 44; stream = 1 }

padded_example : receive crates padded_raw (0 ∷ 0 ∷ 0 ∷ 0 ∷ 0 ∷ 16 ∷ 130 ∷ 132 ∷ []) ≡ panic
padded_example =
    receive-PaddedPriority crates padded_raw 0 (0 ∷ 0 ∷ 0 ∷ 0 ∷ 16 ∷ 130 ∷ 132 ∷ [])
      (refl, refl, refl) (omega arith) refl (omega arith) (omega arith) (omega arith)

-- A SETTINGS frame that changes the window and the frame size.
abbrev new_sizes : SettingsFrame
new_sizes = record default_frame { initial_window_size = some 100; max_frame_size = some 20000 }

default_settings-IsValid : IsValid default_settings
default_settings-IsValid = record {
  frame_min = omega arith;
  frame_max = omega arith;
  window = omega arith;
}

new_sizes-IsValid : IsValid (overridden default_settings new_sizes)
new_sizes-IsValid = record {
  frame_min = omega arith;
  frame_max = omega arith;
  window = omega arith;
}

apply_settings_frame_example :
    (dif : ℤ) × (apply_settings_frame default_settings new_sizes
      ≡ ok (overridden default_settings new_sizes, dif))
    × (pos_part dif + 65535 ≡ neg_part dif + 100)
apply_settings_frame_example =
    apply_settings_frame_ok default_settings new_sizes default_settings-IsValid new_sizes-IsValid

new_sizes-IsWritable : Settings.RoundTrip.IsWritable new_sizes
new_sizes-IsWritable = record {
  header_table_size = tt;
  max_concurrent_streams = tt;
  initial_window_size = omega arith;
  max_frame_size = omega arith;
  max_header_list_size = tt;
}

settings_example : Settings.try_from crates (Settings.into_frame crates new_sizes) ≡ ok new_sizes
settings_example =
    Settings.RoundTrip.try_from-into_frame_settings crates new_sizes new_sizes-IsWritable (inl refl)

abbrev priority : Priority.Priority
priority = record { stream_dependency = 3; exclusive = true; weight = 16 }

abbrev headers_frame : Headers.HeadersFrame
headers_frame = record {
  stream = 1;
  end_stream = false;
  end_headers = true;
  priority = some priority;
  fragment = 130 ∷ [];
}

headers_example :
    Headers.try_from crates (Headers.into_frame crates headers_frame)
    ≡ ok (record headers_frame {
      priority = none;
      fragment = Priority.into_bytes priority ++ 130 ∷ [];
    })
headers_example = Headers.try_from-into_frame_headers crates headers_frame (omega arith)

-- Only the odd streams up to 5 have a handle, and all channels are open.
abbrev odd_streams : ℕ → Bool
odd_streams id = (id == 1) || ((id == 3) || (id == 5))

abbrev open_channels : ℕ → Bool
open_channels id = true

abbrev requests : List (ℕ × ℤ)
requests = (1, pos 30) ∷ (2, pos 50) ∷ (3, negsuc 4) ∷ (5, pos 90) ∷ (1, pos 7) ∷ []

distribute_example :
    distribute_window odd_streams open_channels
      (record { global_window = pos 100; requests = requests })
    ≡ ok (
      record { global_window = pos 0; requests = (5, pos 20) ∷ (1, pos 7) ∷ [] },
      (1, pos 30) ∷ (5, pos 70) ∷ [],
    )
distribute_example =
    distribute_window-share odd_streams open_channels 100 requests (λ id h. refl) (omega arith)
