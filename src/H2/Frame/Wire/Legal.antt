-- ===== src/H2/Frame/Wire/Legal.antt =====
-- Which frame headers are accepted, against RFC 7540, section 6.
use qhttp.Base.{
  ◌+◌, if◌then◌else◌, ℕ, ◌%◌, ◌≡◌, refl, ◌≢◌, ◌≤◌, ◌↔◌, Bool, true, false, ok, arith, >>=-ok, sym,
  ◌∙◌, List, refuse_if, or_panic, or_err, slice, ltb,
}
use qhttp.H2.Crates.{FrameType, Crates, flag_padded, flag_priority}
use qhttp.H2.Frame.{Frame}
use qhttp.H2.Frame.Wire.{
  FrameHeaderRaw, check_header, header_from_raw, from_header_and_payload, strip_padding,
  protocol_error, internal_error,
}

-- What RFC 7540 asks of the length and the stream of a frame that a client sends, before the payload
-- is looked at: padding takes a byte for its length, a priority five. A client may not send PUSH_PROMISE.
abbrev pub IsLegal : FrameType → Bool → Bool → ℕ → ℕ → Type 0
IsLegal FrameType.data_frame padded priority len stream =
    (stream ≢ 0) × ((if padded then 1 else 0) ≤ len)
IsLegal FrameType.headers padded priority len stream =
    (stream ≢ 0) × ((if padded then 1 else 0) + (if priority then 5 else 0) ≤ len)
IsLegal FrameType.priority padded priority len stream = (stream ≢ 0) × (len ≡ 5)
IsLegal FrameType.rst_stream padded priority len stream = (stream ≢ 0) × (len ≡ 4)
IsLegal FrameType.settings padded priority len stream = (stream ≡ 0) × (len % 6 ≡ 0)
IsLegal FrameType.push_promise padded priority len stream = ⊥
IsLegal FrameType.ping padded priority len stream = (stream ≡ 0) × (len ≡ 8)
IsLegal FrameType.go_away padded priority len stream = (stream ≡ 0) × (8 ≤ len)
IsLegal FrameType.window_update padded priority len stream = len ≡ 4
IsLegal FrameType.continuation padded priority len stream = stream ≢ 0

-- The header checks accept exactly the legal headers, of every type but CONTINUATION.
pub check_header_iff :
    (type : FrameType) (padded priority : Bool) (len stream : ℕ)
    → type ≢ FrameType.continuation
    → (check_header type padded priority len stream ≡ ok tt)
      ↔ IsLegal type padded priority len stream
unfolding check_header
check_header_iff FrameType.data_frame true priority len stream ne = ground arith
check_header_iff FrameType.data_frame false priority len stream ne = ground arith
check_header_iff FrameType.headers true true len stream ne = ground arith
check_header_iff FrameType.headers true false len stream ne = ground arith
check_header_iff FrameType.headers false true len stream ne = ground arith
check_header_iff FrameType.headers false false len stream ne = ground arith
check_header_iff FrameType.continuation padded priority len stream ne = absurd (ne refl)
check_header_iff FrameType.priority padded priority len stream ne = ground arith
check_header_iff FrameType.rst_stream padded priority len stream ne = ground arith
check_header_iff FrameType.settings padded priority len stream ne = ground arith
check_header_iff FrameType.push_promise padded priority len stream ne = ground arith
check_header_iff FrameType.ping padded priority len stream ne = ground arith
check_header_iff FrameType.go_away padded priority len stream ne = ground arith
check_header_iff FrameType.window_update padded priority len stream ne = ground arith

-- The check of a CONTINUATION frame asks for stream 0, which RFC 7540 forbids.
continuation-zero :
    (type : FrameType) (padded priority : Bool) (len stream : ℕ) (u : Unit {0})
    → check_header type padded priority len stream ≡ ok u
    → type ≡ FrameType.continuation
    → stream ≡ 0
unfolding check_header
continuation-zero FrameType.continuation padded priority len stream u h t = ground arith
continuation-zero FrameType.data_frame padded priority len stream u h t = absurd cc
continuation-zero FrameType.headers padded priority len stream u h t = absurd cc
continuation-zero FrameType.priority padded priority len stream u h t = absurd cc
continuation-zero FrameType.rst_stream padded priority len stream u h t = absurd cc
continuation-zero FrameType.settings padded priority len stream u h t = absurd cc
continuation-zero FrameType.push_promise padded priority len stream u h t = absurd cc
continuation-zero FrameType.ping padded priority len stream u h t = absurd cc
continuation-zero FrameType.go_away padded priority len stream u h t = absurd cc
continuation-zero FrameType.window_update padded priority len stream u h t = absurd cc

-- Every CONTINUATION frame that is read is of stream 0.
pub continuation-stream :
    (lib : Crates) (raw : FrameHeaderRaw) (payload : List ℕ) (frame : Frame)
    → from_header_and_payload lib raw payload ≡ ok frame
    → frame.header.type ≡ FrameType.continuation
    → frame.header.stream ≡ 0
unfolding header_from_raw from_header_and_payload
continuation-stream lib raw payload frame h t =
    let (header, e, h₁) = >>=-ok (header_from_raw lib raw) _ h in
    let (range, e₂, h₂) =
      >>=-ok (strip_padding header.type (lib.flags.contains header.flags flag_padded) payload) _
        h₁ in
    let (u, e₃, h₃) = >>=-ok (refuse_if (ltb range.1 range.0) protocol_error) _ h₂ in
    let (content, e₄, h₄) = >>=-ok (or_panic (slice payload range.0 range.1)) _ h₃ in
    let (type, k, k₁) = >>=-ok (or_err (lib.frame_type.from raw.type) internal_error) _ e in
    let flags : ℕ = lib.flags.from_bits_truncate raw.flags in
    let (v, k₂, k₃) =
      >>=-ok
        (check_header type (lib.flags.contains flags flag_padded)
          (lib.flags.contains flags flag_priority) raw.length raw.stream)
        _ k₁ in
    let kind : type ≡ frame.header.type = cc in
    let stream : raw.stream ≡ frame.header.stream = cc in
    sym stream ∙ continuation-zero type _ _ raw.length raw.stream v k₂ (kind ∙ t)
