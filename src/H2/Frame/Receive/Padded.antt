-- ===== src/H2/Frame/Receive/Padded.antt =====
-- HEADERS frames with padding and a priority: the conversion looks for the priority at bytes 8 to 13
-- of a payload from which the padding was already stripped.
use qhttp.Base.{ℕ, suc, ◌-◌, ◌≡◌, ◌≢◌, ◌≤◌, ◌<◌, List, ◌∷◌, arith, length, length-take, panic}
use qhttp.H2.Crates.{Crates}
use qhttp.H2.Frame.Headers
use qhttp.H2.Frame.Wire.{
  FrameHeaderRaw, check_header, strip_padding, header_from_raw, from_header_and_payload,
}
use qhttp.H2.Frame.Receive.{convert, receive}
use qhttp.H2.Frame.Receive.Safety.{PaddedPriority}

-- Every such frame that is legal, and whose padding leaves less than 13 bytes, panics the
-- connection's task.
pub receive-PaddedPriority :
    (lib : Crates) (raw : FrameHeaderRaw) (padding : ℕ) (rest : List ℕ)
    → PaddedPriority lib raw
    → raw.stream ≢ 0
    → raw.length ≡ suc (length rest)
    → 6 ≤ raw.length
    → padding < raw.length
    → length rest - padding < 13
    → receive lib raw (padding ∷ rest) ≡ panic
unfolding receive from_header_and_payload header_from_raw check_header strip_padding convert
    Headers.try_from
receive-PaddedPriority lib raw padding rest class s len min fits short =
    ground (arith, length-take (suc (length rest) - padding - 1) rest)
