-- ===== src/Response/Chunks.antt =====
-- What a flush sends is a chunk, and the parser of chunk headers reads it.
use qhttp.Base.{
  ℕ, suc, ◌+◌, ◌^◌, ◌≤◌, ◌<◌, ◌≡◌, ◌⊎◌, refl, ap, ◌∙◌, false, List, [], ◌∷◌, ◌++◌, append_assoc,
  some, arith, length, take, drop, ok, length-take, IoError, take-append_add,
}
use qhttp.Parse.Chars.{cr, nl}
use qhttp.Parse.Chunk.{find_chunk_header_end, parse_chunk_header}
use qhttp.Parse.Chunk.Header.{find_chunk_header_end_iff, parse_chunk_header_header}
use qhttp.Response.{
  ready, failed, pending, ChunkedWriter, hex_digits, create_chunk, flush_inner, and_then,
  write_header, write_body, flush_writer, reset,
}
use qhttp.Response.Digits.{hex_value-hex_digits, hex_digits-hex, length-hex_digits}
use qhttp.Response.Sent.{unsent, IsSending, NothingLost, header_flushed}

-- A chunk on the wire.
abbrev pub chunk : List ℕ → List ℕ
chunk bytes = (hex_digits 16 (length bytes) ++ cr ∷ nl ∷ []) ++ (bytes ++ cr ∷ nl ∷ [])

-- The bytes that were written since the last flush.
abbrev pub collected : ChunkedWriter → List ℕ
collected w = take w.buffer_pointer w.buffer

-- Nothing of the collected bytes was sent yet, and there is room for the end of the chunk.
pub record IsCollecting (w : ChunkedWriter) : Type 0 where
  pub header : w.header_buffer ≡ []
  pub header_pointer : w.header_buffer_read_pointer ≡ 0
  pub read_pointer : w.buffer_read_pointer ≡ 0
  pub room : w.buffer_pointer + 2 ≤ length w.buffer

flush_inner-goes_on :
    (w w₁ : ChunkedWriter)
    → w.finished ≡ false
    → create_chunk w ≡ some w₁
    → flush_inner w
      ≡ and_then (write_header w₁) (λ w₂. and_then (write_body w₂) (λ w₃. flush_writer (reset w₃)))
unfolding flush_inner
flush_inner-goes_on w w₁ f c = simp (f, c)

create_chunk-ready : (w : ChunkedWriter) → 0 < length w.header_buffer → create_chunk w ≡ some w
unfolding create_chunk
create_chunk-ready w h = ground arith

-- A flush that finds a chunk under way goes on where the last one stopped, unless the writer is
-- finished: whatever the writer below answers, it does not panic, and the bytes sent and those
-- still to be sent stay the same, in their order.
pub flush_inner-unsent :
    (w : ChunkedWriter)
    → IsSending w
    → 0 < length w.header_buffer
    → w.finished ≡ false
    → NothingLost w (flush_inner w)
flush_inner-unsent w v h f =
    rw (flush_inner-goes_on w w f (create_chunk-ready w h)) (header_flushed w v)

pub length-collected :
    (w : ChunkedWriter) → IsCollecting w → length (collected w) ≡ w.buffer_pointer
length-collected w v = omega (arith, length-take w.buffer_pointer w.buffer, v.room)

-- The state once the chunk is prepared.
abbrev prepared : ChunkedWriter → ChunkedWriter
prepared w = record w {
  header_buffer = hex_digits 16 w.buffer_pointer ++ cr ∷ nl ∷ [];
  buffer = collected w ++ (cr ∷ nl ∷ [] ++ drop (w.buffer_pointer + 2) w.buffer);
  buffer_pointer = w.buffer_pointer + 2;
}

create_chunk-prepared : (w : ChunkedWriter) → IsCollecting w → create_chunk w ≡ some (prepared w)
unfolding create_chunk
create_chunk-prepared w v = ground (arith, v.header, v.room)

collected-prepared :
    (w : ChunkedWriter) → IsCollecting w → collected (prepared w) ≡ collected w ++ cr ∷ nl ∷ []
collected-prepared w v =
    let behind : List ℕ = cr ∷ nl ∷ drop (w.buffer_pointer + 2) w.buffer in
    let l : w.buffer_pointer + 2 ≡ length (collected w) + 2 = omega (arith, length-collected w v) in
    ap (λ n. take n (collected w ++ behind)) l ∙ take-append_add 2 (collected w) behind

prepared-IsSending : (w : ChunkedWriter) → IsCollecting w → IsSending (prepared w)
prepared-IsSending w v = record {
  header = omega (arith, v.header_pointer);
  body = omega (arith, v.read_pointer);
}

unsent-prepared : (w : ChunkedWriter) → IsCollecting w → unsent (prepared w) ≡ chunk (collected w)
unsent-prepared w v =
    rw (v.header_pointer, v.read_pointer, collected-prepared w v, length-collected w v) refl

-- From collected bytes, and unless the writer is finished, a flush sends their chunk: whatever the
-- writer below answers, the bytes sent and those still to be sent are those sent before and the
-- chunk, and the flush does not panic.
pub flush_inner-chunk :
    (w : ChunkedWriter)
    → IsCollecting w
    → w.finished ≡ false
    → let r = flush_inner w in
      (r.1.writer.sent ++ unsent r.1 ≡ w.writer.sent ++ chunk (collected w))
      × ((r.0 ≡ ready tt) ⊎ ((r.0 ≡ pending) ⊎ ((e : IoError) × (r.0 ≡ failed e))))
flush_inner-chunk w v f =
    let (m, o) = header_flushed (prepared w) (prepared-IsSending w v) in
    rw (flush_inner-goes_on w (prepared w) f (create_chunk-prepared w v))
      (m ∙ ap (λ (tail : List ℕ). w.writer.sent ++ tail) (unsent-prepared w v), o)

drop-append_add : (n : ℕ) (xs ys : List ℕ) → drop (length xs + n) (xs ++ ys) ≡ drop n ys
drop-append_add n [] ys = ground arith
drop-append_add n (x ∷ xs) ys =
    let step : length (x ∷ xs) + n ≡ suc (length xs + n) = omega arith in
    ap (λ k. drop k (x ∷ xs ++ ys)) step ∙ drop-append_add n xs ys

-- A chunk of less than 2^64 bytes is read back: the parser finds the end of its header, where the
-- bytes begin, and reads their number.
pub parse_chunk_header-chunk :
    (bytes rest : List ℕ)
    → length bytes < 2 ^ 64
    → (end : ℕ) × (find_chunk_header_end (chunk bytes ++ rest) ≡ ok (some end))
      × (parse_chunk_header (chunk bytes ++ rest) ≡ ok (length bytes))
      × (drop end (chunk bytes ++ rest) ≡ bytes ++ cr ∷ nl ∷ rest)
parse_chunk_header-chunk bytes rest h =
    let digits : List ℕ = hex_digits 16 (length bytes) in
    let tail : List ℕ = bytes ++ cr ∷ nl ∷ rest in
    let whole : chunk bytes ++ rest ≡ digits ++ cr ∷ nl ∷ tail =
      append_assoc (digits ++ cr ∷ nl ∷ []) (bytes ++ cr ∷ nl ∷ []) rest
      ∙ append_assoc digits (cr ∷ nl ∷ []) ((bytes ++ cr ∷ nl ∷ []) ++ rest)
      ∙ ap (λ (end : List ℕ). digits ++ cr ∷ nl ∷ end) (append_assoc bytes (cr ∷ nl ∷ []) rest) in
    let hex = hex_digits-hex 16 (length bytes) in
    let (some_digits, few) = length-hex_digits 15 (length bytes) in
    (
      length digits + 2,
      (find_chunk_header_end_iff (chunk bytes ++ rest) (length digits + 2)).1
          (digits, tail, whole, hex, some_digits, refl),
      ap parse_chunk_header whole
          ∙ parse_chunk_header_header digits tail hex some_digits few
          ∙ ap ok (hex_value-hex_digits 15 (length bytes) (omega arith)),
      ap (drop (length digits + 2)) whole ∙ drop-append_add 2 digits (cr ∷ nl ∷ tail),
    )
