-- ===== src/H2/Connection/Opening/Fragmented.antt =====
-- Header blocks of more than one frame.
use qhttp.Base.{
  ℕ, ◌<◌, ◌⊎◌, ◌↔◌, subst, ◌≡◌, ◌≢◌, refl, sym, Bool, true, false, not, ◌&&◌, ◌%◌, ◌==◌, leb,
  if◌then◌else◌, List, [], ◌∷◌, arith, ok, >>=-ok, refuse_if, Bool-cases, inl, inr,
}
use qhttp.H2.Error.{H2Result}
use qhttp.H2.Crates.{FrameType, same_type}
use qhttp.H2.Frame.{Frame, expect_type}
use qhttp.H2.Frame.Headers
use qhttp.H2.Frame.Continuation
use qhttp.H2.Frame.Wire.{FrameHeaderRaw, from_header_and_payload, protocol_error}
use qhttp.H2.Frame.Wire.Legal.{continuation-stream}
use qhttp.H2.Connection.{Config, Connection, ConnResult, Surroundings, at, at-ok}
use qhttp.H2.Connection.Streams.{has}
use qhttp.H2.Connection.Requests.{Next}
use qhttp.H2.Connection.Opening.{store, read_continuations, open_stream, handle_headers}

refuse_if-ok : (b : Bool) (u : Unit {0}) → refuse_if b protocol_error ≡ ok u → b ≡ false
refuse_if-ok true u h = absurd cc
refuse_if-ok false u h = refl

not-false : (b : Bool) → not b ≡ false → b ≡ true
not-false true h = refl
not-false false h = absurd cc

same_connection : (a b : Connection) → (let r : ConnResult Connection = ok a in r ≡ ok b) → a ≡ b
same_connection a b e = cc

module _ (config : Config) (out : Surroundings) where
  -- What is read of the peer's raw headers and payloads.
  abbrev pub frames_read : List (FrameHeaderRaw × List ℕ) → List (H2Result Frame)
  frames_read [] = []
  frames_read ((raw, payload) ∷ rest) =
      from_header_and_payload out.lib raw payload ∷ frames_read rest

  read_continuations-fails :
      (reads : List (FrameHeaderRaw × List ℕ)) (c c' : Connection) (stream : ℕ)
      → stream ≢ 0
      → read_continuations config out c stream (frames_read reads) ≢ ok c'
  unfolding read_continuations Continuation.try_from
  read_continuations-fails [] c c' stream some_stream h = absurd cc
  read_continuations-fails ((raw, payload) ∷ rest) c c' stream some_stream h =
      let read : H2Result Frame = from_header_and_payload out.lib raw payload in
      let (frame, e, h₁) = >>=-ok (at c read) _ h in
      let (u, e₁, h₂) =
        >>=-ok
          (at c
            (refuse_if (not (same_type frame.header.type FrameType.continuation)) protocol_error))
          _ h₁ in
      let (continuation, e₂, h₃) = >>=-ok (at c (Continuation.try_from out.lib frame)) _ h₂ in
      let (v, e₃, h₄) =
        >>=-ok (at c (refuse_if (not (continuation.stream == stream)) protocol_error)) _ h₃ in
      let kind : same_type frame.header.type FrameType.continuation ≡ true =
        not-false _ (refuse_if-ok _ u (at-ok c _ e₁)) in
      let same : (continuation.stream == stream) ≡ true =
        not-false _ (refuse_if-ok _ v (at-ok c _ e₃)) in
      let (w, e₄, h₅) = >>=-ok (expect_type frame FrameType.continuation) _ (at-ok c _ e₂) in
      let of_frame : frame.header.stream ≡ continuation.stream = cc in
      let zero : frame.header.stream ≡ 0 =
        continuation-stream out.lib raw payload frame (at-ok c read e) (by_number _ kind) in
      absurd (some_stream (ground (arith, same, of_frame, zero)))
    where
      by_number :
          (type : FrameType)
          → same_type type FrameType.continuation ≡ true
          → type ≡ FrameType.continuation
      by_number FrameType.continuation k = refl
      by_number type k = absurd cc

  -- A header block of one frame, of an odd stream that is open or new, whose fragment fits the
  -- buffer, is what `open_stream` accepts.
  abbrev pub InOneFrame : Connection → Headers.HeadersFrame → Next → Type 0
  InOneFrame c frame next =
      (frame.end_headers ≡ true)
      × (frame.stream % 2 ≢ 0)
      × ((has c.streams frame.stream ≡ true) ⊎ (c.biggest_open_stream < frame.stream))
      × (c₁ : Connection) × (store c frame.fragment ≡ ok c₁)
      × (open_stream config out c₁ frame.stream frame.end_stream ≡ ok next)

  one_frame :
      (c : Connection) (frame : Headers.HeadersFrame) (reads : List (FrameHeaderRaw × List ℕ))
      (next : Next)
      → handle_headers config out c frame (frames_read reads) ≡ ok next
      → InOneFrame c frame next
  unfolding handle_headers
  one_frame c frame reads next h =
      let (u, e₁, h₁) = >>=-ok (at c (refuse_if (frame.stream % 2 == 0) protocol_error)) _ h in
      let (v, e₂, h₂) =
        >>=-ok
          (at c (
            refuse_if (not (has c.streams frame.stream) && leb frame.stream c.biggest_open_stream)
              protocol_error))
          _ h₁ in
      let (c₁, e₃, h₃) = >>=-ok (store c frame.fragment) _ h₂ in
      let (c₂, e₄, h₄) =
        >>=-ok
          (if frame.end_headers
            then ok c₁
            else read_continuations config out c₁ frame.stream (frames_read reads))
          _ h₃ in
      let odd : (frame.stream % 2 == 0) ≡ false = refuse_if-ok _ u (at-ok c _ e₁) in
      let known : (has c.streams frame.stream ≡ true) ⊎ (c.biggest_open_stream < frame.stream) =
        new_or_open (refuse_if-ok _ v (at-ok c _ e₂)) in
      elim (Bool-cases frame.end_headers) [
        | inl whole ↦
            let done : c₁ ≡ c₂ = same_connection c₁ c₂ (rw whole at e₄) in
            (
              whole,
              (λ e. ground (arith, odd, e)),
              known,
              c₁,
              e₃,
              subst (λ x. open_stream config out x frame.stream frame.end_stream ≡ ok next)
                  (sym done) h₄,
            )
        | inr part ↦ absurd (
            read_continuations-fails reads c₁ c₂ frame.stream (λ e. ground (arith, odd, e))
              (rw part at e₄))
      ]
    where
      new_or_open :
          (not (has c.streams frame.stream) && leb frame.stream c.biggest_open_stream) ≡ false
          → (has c.streams frame.stream ≡ true) ⊎ (c.biggest_open_stream < frame.stream)
      new_or_open k = elim (Bool-cases (has c.streams frame.stream)) [
        | inl e ↦ inl e
        | inr e ↦ inr (ground (arith, k, e))
      ]

  accepted :
      (c : Connection) (frame : Headers.HeadersFrame) (reads : List (FrameHeaderRaw × List ℕ))
      (next : Next)
      → InOneFrame c frame next
      → handle_headers config out c frame (frames_read reads) ≡ ok next
  unfolding handle_headers
  accepted c frame reads next (whole, odd, known, c₁, stored, opened) =
      let first : (frame.stream % 2 == 0) ≡ false = ground (arith, odd) in
      let second : (not (has c.streams frame.stream) && leb frame.stream c.biggest_open_stream)
          ≡ false =
        elim known [ inl e ↦ rw e refl | inr l ↦ ground (arith, l) ] in
      rw (first, second, stored, whole) opened

  -- `handle_headers` accepts a HEADERS frame exactly if it has END_HEADERS, its stream is odd, and
  -- open or newer than every stream before, its fragment fits the buffer, and `open_stream` accepts
  -- the block. So it is whatever raw headers and payloads the peer sends next: a HEADERS frame without
  -- END_HEADERS is never accepted, whichever CONTINUATION frames follow.
  pub handle_headers_iff :
      (c : Connection) (frame : Headers.HeadersFrame) (reads : List (FrameHeaderRaw × List ℕ))
      (next : Next)
      → (handle_headers config out c frame (frames_read reads) ≡ ok next) ↔ InOneFrame c frame next
  handle_headers_iff c frame reads next =
      (one_frame c frame reads next, accepted c frame reads next)
