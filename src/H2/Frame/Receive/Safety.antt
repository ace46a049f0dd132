-- ===== src/H2/Frame/Receive/Safety.antt =====
-- Which received frames the connection can panic on, from the header on.
use qhttp.Base.{
  ℕ, ◌≡◌, ◌≢◌, ◌≤◌, refl, Bool, true, List, [], ◌∷◌, some, arith, length, ok, panic, ◌>>=◌, inl,
  inr, take-length, ap, ◌∙◌, take, suc, ◌-◌, refuse_if, or_panic, ltb, slice, ◌>>◌, Option-cases,
  Result-cases,
}
use qhttp.H2.Error.{H2Result}
use qhttp.H2.Crates.{FrameType, Crates, flag_padded, flag_priority}
use qhttp.H2.Frame.{Frame}
use qhttp.H2.Frame.Wire.{
  FrameHeaderRaw, check_header, strip_padding, header_from_raw, from_header_and_payload,
  protocol_error,
}
use qhttp.H2.Frame.Receive.{Received, convert, receive}
use qhttp.H2.Frame.Receive.Conversions.{
  data-ne-panic, rst_stream-ne-panic, ping-ne-panic, go_away-ne-panic, settings-ne-panic,
  headers-ne-panic, headers_priority-ne-panic, priority-ne-panic, window_update-ne-panic,
}

module _ (lib : Crates) where
  abbrev framed : FrameType → ℕ → ℕ → List ℕ → Frame
  framed type flags stream payload = record {
    header = record { type = type; flags = flags; stream = stream };
    payload = payload;
  }

  -- From the header on, the rest of `receive`.
  abbrev finish : FrameType → ℕ → ℕ → List ℕ → H2Result Received
  finish type flags stream payload = do
    frame ← do
      (begin, end) ← strip_padding type (lib.flags.contains flags flag_padded) payload
      refuse_if (ltb end begin) protocol_error
      content ← or_panic (slice payload begin end)
      ok (framed type flags stream content)
    convert lib frame.header.type frame

  finish-data-ne-panic :
      (flags stream : ℕ) (payload : List ℕ)
      → finish FrameType.data_frame flags stream payload ≢ panic
  unfolding strip_padding convert
  finish-data-ne-panic flags stream [] =
      ground (arith, data-ne-panic lib (framed FrameType.data_frame flags stream []))
  finish-data-ne-panic flags stream (p ∷ rest) = ground (
    arith,
    take-length (p ∷ rest),
    data-ne-panic lib (framed FrameType.data_frame flags stream (p ∷ rest)),
    data-ne-panic lib
        (framed FrameType.data_frame flags stream (take (suc (length rest) - p - 1) rest)),
  )

  finish-headers-ne-panic :
      (flags stream : ℕ) (payload : List ℕ)
      → ¬ (
          (lib.flags.contains flags flag_padded ≡ true)
          × (lib.flags.contains flags flag_priority ≡ true))
      → (lib.flags.contains flags flag_priority ≡ true → 5 ≤ length payload)
      → finish FrameType.headers flags stream payload ≢ panic
  unfolding strip_padding convert
  finish-headers-ne-panic flags stream [] class fits = ground (
    arith,
    headers-ne-panic lib (framed FrameType.headers flags stream []),
    headers_priority-ne-panic lib (framed FrameType.headers flags stream []),
  )
  finish-headers-ne-panic flags stream (p ∷ rest) class fits =
      let stripped : List ℕ = take (suc (length rest) - p - 1) rest in
      ground (
        arith,
        take-length (p ∷ rest),
        headers-ne-panic lib (framed FrameType.headers flags stream (p ∷ rest)),
        headers-ne-panic lib (framed FrameType.headers flags stream stripped),
        headers_priority-ne-panic lib (framed FrameType.headers flags stream (p ∷ rest)),
      )

  check_header-ne-panic :
      (type : FrameType) (padded priority : Bool) (len stream : ℕ)
      → check_header type padded priority len stream ≢ panic
  unfolding check_header
  check_header-ne-panic FrameType.headers padded priority len stream = ground arith
  check_header-ne-panic type padded priority len stream = ground arith

  finish-ne-panic :
      (type : FrameType) (flags stream : ℕ) (payload : List ℕ)
      → check_header type
          (lib.flags.contains flags flag_padded)
          (lib.flags.contains flags flag_priority)
          (length payload)
          stream
        ≡ ok tt
      → ¬ (
          (type ≡ FrameType.headers)
          × (lib.flags.contains flags flag_padded ≡ true)
          × (lib.flags.contains flags flag_priority ≡ true))
      → finish type flags stream payload ≢ panic
  unfolding check_header strip_padding convert
  finish-ne-panic FrameType.data_frame flags stream payload c class =
      finish-data-ne-panic flags stream payload
  finish-ne-panic FrameType.headers flags stream payload c class =
      finish-headers-ne-panic flags stream payload (λ h. class (refl, h.0, h.1)) (ground arith)
  finish-ne-panic FrameType.push_promise flags stream payload c class = λ h. cc
  finish-ne-panic FrameType.continuation flags stream payload c class =
      ground (arith, take-length payload)
  finish-ne-panic FrameType.priority flags stream payload c class = ground (
    arith,
    take-length payload,
    priority-ne-panic (framed FrameType.priority flags stream payload),
  )
  finish-ne-panic FrameType.rst_stream flags stream payload c class = ground (
    arith,
    take-length payload,
    rst_stream-ne-panic lib (framed FrameType.rst_stream flags stream payload),
  )
  finish-ne-panic FrameType.settings flags stream payload c class = ground (
    arith,
    take-length payload,
    settings-ne-panic lib (framed FrameType.settings flags stream payload),
  )
  finish-ne-panic FrameType.ping flags stream payload c class =
      ground
        (arith, take-length payload, ping-ne-panic lib (framed FrameType.ping flags stream payload))
  finish-ne-panic FrameType.go_away flags stream payload c class = ground (
    arith,
    take-length payload,
    go_away-ne-panic lib (framed FrameType.go_away flags stream payload),
  )
  finish-ne-panic FrameType.window_update flags stream payload c class = ground (
    arith,
    take-length payload,
    window_update-ne-panic (framed FrameType.window_update flags stream payload),
  )

  -- The class of frames that may panic: HEADERS with padding and a priority.
  abbrev pub PaddedPriority : FrameHeaderRaw → Type 0
  PaddedPriority raw =
      (lib.frame_type.from raw.type ≡ some FrameType.headers)
      × (lib.flags.contains (lib.flags.from_bits_truncate raw.flags) flag_padded ≡ true)
      × (lib.flags.contains (lib.flags.from_bits_truncate raw.flags) flag_priority ≡ true)

  -- Whatever the header and the payload of the announced length are, the frame is converted or
  -- refused without a panic, unless it is a HEADERS frame with padding and a priority.
  pub receive-ne-panic :
      (raw : FrameHeaderRaw) (payload : List ℕ)
      → length payload ≡ raw.length
      → ¬ PaddedPriority raw
      → receive lib raw payload ≢ panic
  unfolding receive from_header_and_payload header_from_raw
  receive-ne-panic raw payload len class = elim (Option-cases (lib.frame_type.from raw.type)) [
    | inl e ↦ rw e (λ h. cc)
    | inr (type, e) ↦
        let flags : ℕ = lib.flags.from_bits_truncate raw.flags in
        let padded : Bool = lib.flags.contains flags flag_padded in
        let priority : Bool = lib.flags.contains flags flag_priority in
        elim (Result-cases (check_header type padded priority raw.length raw.stream)
          (check_header-ne-panic type padded priority raw.length raw.stream)) [
            | inl (done, c) ↦
                rw (e, c)
                  (finish-ne-panic type flags raw.stream payload (rw len c)
                    (λ h. class (e ∙ ap some h.0, h.1, h.2)))
            | inr (error, c) ↦ rw (e, c) (λ h. cc)
          ]
  ]
