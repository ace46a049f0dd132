-- ===== src/Response/Written.antt =====
-- What `write_inner` collects.
use qhttp.Base.{
  ℕ, ◌+◌, ◌-◌, ◌^◌, ◌≤◌, ◌<◌, ◌≡◌, ap, ◌∙◌, true, false, List, [], ◌++◌, leb, ◌==◌, min, arith,
  length, take, drop, length-take, length-drop, length-append, sub_usize, take-append_add,
  take-append_self,
}
use qhttp.Response.{ready, ChunkedWriter, put, fill, write_inner}
use qhttp.Response.Chunks.{collected, IsCollecting, length-collected}

-- The state after `n` of the bytes were put behind the collected ones.
abbrev filled : ChunkedWriter → List ℕ → ℕ → ChunkedWriter
filled w bytes n = record w {
  buffer =
      collected w ++ (take n bytes ++ drop (w.buffer_pointer + length (take n bytes)) w.buffer);
  buffer_pointer = w.buffer_pointer + n;
}

write_inner-fill :
    (w : ChunkedWriter) (bytes : List ℕ)
    → w.header_buffer ≡ []
    → w.finished ≡ false
    → w.finishing ≡ false
    → w.buffer_pointer + 2 < length w.buffer
    → length w.buffer < 2 ^ 63
    → write_inner w bytes ≡ fill w bytes
unfolding write_inner
write_inner-fill w bytes h f g room small =
    let free : leb (sub_usize (length w.buffer) 2) w.buffer_pointer ≡ false = ground arith in
    let no_header : (length w.header_buffer == 0) ≡ true = ap (λ (xs : List ℕ). length xs == 0) h in
    simp (f, g, free, no_header)

put-filled :
    (w : ChunkedWriter) (bytes : List ℕ) (n : ℕ)
    → w.buffer_pointer + length (take n bytes) ≤ length w.buffer
    → put w bytes n ≡ (ready n, filled w bytes n)
unfolding put
put-filled w bytes n h = ground arith

fill-filled :
    (w : ChunkedWriter) (bytes : List ℕ)
    → w.buffer_pointer + 2 < length w.buffer
    → length w.buffer < 2 ^ 63
    → let n = min (length w.buffer - 2 - w.buffer_pointer) (length bytes) in
      fill w bytes ≡ (ready n, filled w bytes n)
unfolding fill
fill-filled w bytes room small =
    let n : ℕ = min (length w.buffer - 2 - w.buffer_pointer) (length bytes) in
    let amount : min (sub_usize (sub_usize (length w.buffer) 2) w.buffer_pointer) (length bytes)
        ≡ n =
      omega arith in
    ap (put w bytes) amount ∙ put-filled w bytes n (omega (arith, length-take n bytes))

collected-filled :
    (w : ChunkedWriter) (bytes : List ℕ) (n : ℕ)
    → IsCollecting w
    → n ≤ length bytes
    → collected (filled w bytes n) ≡ collected w ++ take n bytes
collected-filled w bytes n v h =
    let part : List ℕ = take n bytes in
    let behind : List ℕ = drop (w.buffer_pointer + length part) w.buffer in
    let l : n ≡ length part = omega (arith, length-take n bytes) in
    let k : w.buffer_pointer + n ≡ length (collected w) + n = omega (arith, length-collected w v) in
    ap (λ m. take m (collected w ++ (part ++ behind))) k
    ∙ take-append_add n (collected w) (part ++ behind)
    ∙ ap (λ (tail : List ℕ). collected w ++ tail)
        (ap (λ m. take m (part ++ behind)) l ∙ take-append_self part behind)

-- While there is room and the writer is neither finishing nor finished, `write_inner` takes as
-- many bytes as fit, says how many, and puts exactly those behind the bytes that it has collected.
pub write_inner_lem :
    (w : ChunkedWriter) (bytes : List ℕ)
    → IsCollecting w
    → w.finished ≡ false
    → w.finishing ≡ false
    → w.buffer_pointer + 2 < length w.buffer
    → length w.buffer < 2 ^ 63
    → let n = min (length w.buffer - 2 - w.buffer_pointer) (length bytes) in
      (w' : ChunkedWriter) × (write_inner w bytes ≡ (ready n, w'))
      × IsCollecting w'
      × (collected w' ≡ collected w ++ take n bytes)
write_inner_lem w bytes v f g room small =
    let n : ℕ = min (length w.buffer - 2 - w.buffer_pointer) (length bytes) in
    let part : List ℕ = take n bytes in
    let behind : List ℕ = drop (w.buffer_pointer + length part) w.buffer in
    (
      filled w bytes n,
      write_inner-fill w bytes v.header f g room small ∙ fill-filled w bytes room small,
      record {
        header = v.header;
        header_pointer = v.header_pointer;
        read_pointer = v.read_pointer;
        room = omega (
          arith,
          length-take n bytes,
          length-collected w v,
          length-append (collected w) (part ++ behind),
          length-append part behind,
          length-drop (w.buffer_pointer + length part) w.buffer,
        );
      },
      collected-filled w bytes n v (omega arith),
    )
