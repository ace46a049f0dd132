-- ===== src/H2/Connection/Answers/Fragments.antt =====
-- The frames of a response carry its header block in pieces, in their order.
use qhttp.Base.{
  ℕ, zero, suc, ◌+◌, if◌then◌else◌, ◌≡◌, ◌≤◌, ◌<◌, Bool, true, false, List, [], ◌∷◌, ◌++◌,
  append_assoc, append-nil, refl, ap, ◌∙◌, ok, arith, length, take, drop, take-append-drop,
  length-take, length-drop, All, ltb, Bool-cases, inl, inr,
}
use qhttp.H2.Crates.{FrameType, flag_end_headers}
use qhttp.H2.Frame.{Frame}
use qhttp.H2.Frame.Headers
use qhttp.H2.Frame.Continuation
use qhttp.H2.Connection.{Connection, ConnResult, Surroundings, write_frame}
use qhttp.H2.Connection.Answers.{
  Response, status_key, max_fragment, fragment_frame, write_fragments, write_response,
}

abbrev pub is_empty : {A : Type 0} → List A → Bool
is_empty [] = true
is_empty (x ∷ xs) = false

abbrev pub concat : List (List ℕ) → List ℕ
concat [] = []
concat (piece ∷ pieces) = piece ++ concat pieces

-- The CONTINUATION frames of a stream, one for each piece, with END_HEADERS (4) on the last.
abbrev pub continuations : (stream : ℕ) → List (List ℕ) → List Frame
continuations stream [] = []
continuations stream (piece ∷ pieces) =
    record {
      header = record {
        type = FrameType.continuation;
        flags = if is_empty pieces then 4 else 0;
        stream = stream;
      };
      payload = piece;
    }
    ∷ continuations stream pieces

-- The first piece in a HEADERS frame, which has END_STREAM (1) if it is to, and END_HEADERS if it is
-- the only one, and the others in CONTINUATION frames.
abbrev pub frames_of : (stream : ℕ) → (end_stream : Bool) → List (List ℕ) → List Frame
frames_of stream end_stream [] = []
frames_of stream end_stream (piece ∷ pieces) =
    record {
      header = record {
        type = FrameType.headers;
        flags = (if end_stream then 1 else 0) + (if is_empty pieces then 4 else 0);
        stream = stream;
      };
      payload = piece;
    }
    ∷ continuations stream pieces

module _ (out : Surroundings) where
  -- The frames of the rounds of the loop.
  abbrev rounds : (first : Bool) → ℕ → Bool → List (List ℕ) → List Frame
  rounds first stream end_stream [] = []
  rounds first stream end_stream (piece ∷ pieces) =
      fragment_frame out first stream end_stream (is_empty pieces) piece
      ∷ rounds false stream end_stream pieces

  continuation_flags :
      (last : Bool)
      → (if last then out.lib.flags.union 0 flag_end_headers else 0) ≡ (if last then 4 else 0)
  continuation_flags true = out.lib.flags.union_lem 0 4
  continuation_flags false = refl

  header_flags :
      (end_stream last : Bool)
      → Headers.end_flags out.lib end_stream last
        ≡ (if end_stream then 1 else 0) + (if last then 4 else 0)
  header_flags true true = rw (out.lib.flags.union_lem 0 1) (out.lib.flags.union_lem 1 4)
  header_flags true false = out.lib.flags.union_lem 0 1
  header_flags false true = out.lib.flags.union_lem 0 4
  header_flags false false = refl

  rounds-continuations :
      (stream : ℕ) (end_stream : Bool) (pieces : List (List ℕ))
      → rounds false stream end_stream pieces ≡ continuations stream pieces
  unfolding Continuation.into_frame
  rounds-continuations stream end_stream [] = refl
  rounds-continuations stream end_stream (piece ∷ pieces) =
      rw (continuation_flags (is_empty pieces), rounds-continuations stream end_stream pieces) refl

  rounds-frames_of :
      (stream : ℕ) (end_stream : Bool) (pieces : List (List ℕ))
      → rounds true stream end_stream pieces ≡ frames_of stream end_stream pieces
  unfolding Headers.into_frame
  rounds-frames_of stream end_stream [] = refl
  rounds-frames_of stream end_stream (piece ∷ pieces) =
      rw (header_flags end_stream (is_empty pieces), rounds-continuations stream end_stream pieces)
        refl

  -- The pieces of a block.
  record Pieces (block : List ℕ) : Type 0 where
    pieces : List (List ℕ)
    some_piece : is_empty pieces ≡ false
    whole : concat pieces ≡ block
    bounded : All (λ piece. length piece ≤ max_fragment) pieces

  module _ (takes : (written : List Frame) (f : Frame) → out.writes written f ≡ true) where
    write_frame_lem :
        (c : Connection) (f : Frame)
        → write_frame out c f ≡ ok (record c { written = c.written ++ (f ∷ []) })
    unfolding write_frame
    write_frame_lem c f = rw (takes c.written f) refl

    write_fragments_lem :
        (fuel : ℕ) (first : Bool) (c : Connection) (stream : ℕ) (end_stream : Bool) (block : List ℕ)
        → length block < fuel
        → (p : Pieces block) × (write_fragments out fuel first c stream end_stream block
            ≡ ok (record c { written = c.written ++ rounds first stream end_stream p.pieces }))
    unfolding write_fragments
    write_fragments_lem zero first c stream end_stream block h = absurd (omega (arith, h))
    write_fragments_lem (suc fuel) first c stream end_stream block h =
        let frame = fragment_frame out first stream end_stream in
        elim (Bool-cases (ltb max_fragment (length block))) [
          | inl e ↦
              (let f = frame false (take max_fragment block) in
                let c₁ : Connection = record c { written = c.written ++ (f ∷ []) } in
                let (p, k) =
                  write_fragments_lem fuel false c₁ stream end_stream (drop max_fragment block)
                    (ground (arith, length-drop max_fragment block)) in
                let put : List Frame → ConnResult Connection = λ w. ok (record c { written = w }) in
                let q : Pieces block = record {
                  pieces = take max_fragment block ∷ p.pieces;
                  some_piece = refl;
                  whole =
                      ap (λ (xs : List ℕ). take max_fragment block ++ xs) p.whole
                      ∙ take-append-drop max_fragment block;
                  bounded = (omega (arith, length-take max_fragment block), p.bounded);
                } in
                (
                  q,
                  rw (e, write_frame_lem c f)
                      (k ∙ rw p.some_piece (ap put (append_assoc c.written (f ∷ []) _))),
                ))
          | inr e ↦
              (let q : Pieces block = record {
                pieces = block ∷ [];
                some_piece = refl;
                whole = append-nil block;
                bounded = (ground (arith, e), tt);
              } in
                (q, rw e (write_frame_lem c (frame true block))))
        ]

    -- When the writer takes every frame, `write_response` writes the block that the encoder makes
    -- of the status and the headers, of the stream it is given: in one HEADERS frame, which has
    -- END_STREAM if the response has no body, and as many CONTINUATION frames as it needs, none with
    -- more than 16384 bytes, in the order of the block, and with END_HEADERS on the last frame only.
    pub write_response_lem :
        (c : Connection) (r : Response) (stream : ℕ) (end_stream : Bool)
        → let headers = (status_key, r.status) ∷ r.headers in
          (pieces : List (List ℕ)) × (is_empty pieces ≡ false)
          × (concat pieces ≡ out.encode c.encoded headers)
          × All (λ piece. length piece ≤ max_fragment) pieces
          × (write_response out c r stream end_stream
              ≡ ok (record c {
                encoded = c.encoded ++ (headers ∷ []);
                written = c.written ++ frames_of stream end_stream pieces;
              }))
    unfolding write_response
    write_response_lem c r stream end_stream =
        let headers = (status_key, r.status) ∷ r.headers in
        let c₁ : Connection = record c { encoded = c.encoded ++ (headers ∷ []) } in
        let (p, h) =
          write_fragments_lem _ true c₁ stream end_stream (out.encode c.encoded headers)
            (omega arith) in
        (
          p.pieces,
          p.some_piece,
          p.whole,
          p.bounded,
          h
              ∙ ap
                  (λ (frames : List Frame). ok (record c {
                    encoded = c.encoded ++ (headers ∷ []);
                    written = c.written ++ frames;
                  }))
                  (rounds-frames_of stream end_stream p.pieces),
        )
