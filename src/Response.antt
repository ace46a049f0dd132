-- ===== src/Response.antt =====
-- response.rs: `ChunkedWriter`, which sends a body as chunks. The writer below it is tokio's, and
-- its answers are a parameter: `answers` lists them in advance, one for each call of `poll_write`.
-- It takes some of the bytes, is not ready, or fails; without an answer left it is not ready.
pub mod Digits
pub mod Sent
pub mod Chunks
pub mod Written
mod Tests
use qhttp.Base.{
  ℕ, zero, suc, ◌+◌, ◌-◌, ◌/◌, ◌%◌, ◌≤◌, Bool, true, false, not, ◌||◌, List, [], ◌∷◌, ◌++◌, Option,
  none, some, leb, ltb, ◌==◌, if◌then◌else◌, min, length, take, drop, IoError, add_usize, sub_usize,
}
use qhttp.Buffer.{copy_in}
use qhttp.Parse.Chars.{cr, nl}

pub data Answer : Type 0 where
  takes : ℕ → Answer
  not_ready : Answer
  fails : IoError → Answer

-- `Poll<std::io::Result<A>>`, where a panic ends the task.
pub data Poll (A : Type 0) : Type 0 where
  ready : A → Poll A
  failed : IoError → Poll A
  pending panic : Poll A

-- The writer below: what it will answer, and the bytes that it has taken.
pub record Writer : Type 0 where
  pub answers : List Answer
  pub sent : List ℕ

pub record ChunkedWriter : Type 0 where
  pub writer : Writer
  pub buffer : List ℕ
  pub buffer_pointer : ℕ
  pub buffer_read_pointer : ℕ
  pub header_buffer : List ℕ
  pub header_buffer_read_pointer : ℕ
  pub finishing : Bool
  pub finished : Bool

-- `format!("{:x}", n)`: the digits of a number, without leading zeros.
abbrev pub hex_char : ℕ → ℕ
hex_char d = if ltb d 10 then 48 + d else 87 + d

-- Sixteen digits are enough for a `usize`.
unfoldable pub hex_digits : (fuel : ℕ) → ℕ → List ℕ
hex_digits zero n = []
hex_digits (suc fuel) n =
    let front = hex_digits fuel (n / 16) in
    if ltb n 16 then hex_char n ∷ [] else front ++ hex_char (n % 16) ∷ []

-- `AsyncWrite::poll_write` and `poll_flush` of the writer below. `takes n` is that there is room for
-- `n` bytes, of which a call uses what it needs.
unfoldable pub poll_flush_writer : Writer → Poll (Unit {0}) × Writer
poll_flush_writer w = elim w.answers [
  | [] ↦ (pending, w)
  | a ∷ answers ↦
      let next : Writer = record w { answers = answers } in
      elim a [
        | takes n ↦ (ready tt, next)
        | not_ready ↦ (pending, next)
        | fails e ↦ (failed e, next)
      ]
]

-- The loop of `write_header` and of `write_body`: it offers `bytes[pointer..]`, and returns the new
-- pointer. For the body, `bytes` are those up to the buffer's pointer.
unfoldable pub write_loop : List Answer → (sent bytes : List ℕ) → ℕ → Poll (Unit {0}) × Writer × ℕ
write_loop [] sent bytes pointer = (
  if leb (length bytes) pointer then ready tt else pending,
  record { answers = []; sent = sent },
  pointer,
)
write_loop (takes n ∷ answers) sent bytes pointer =
    let part = take n (drop pointer bytes) in
    let later = write_loop answers (sent ++ part) bytes (pointer + length part) in
    if leb (length bytes) pointer
    then (ready tt, record { answers = takes n ∷ answers; sent = sent }, pointer)
    else later
write_loop (not_ready ∷ answers) sent bytes pointer =
    if leb (length bytes) pointer
    then (ready tt, record { answers = not_ready ∷ answers; sent = sent }, pointer)
    else (pending, record { answers = answers; sent = sent }, pointer)
write_loop (fails e ∷ answers) sent bytes pointer =
    if leb (length bytes) pointer
    then (ready tt, record { answers = fails e ∷ answers; sent = sent }, pointer)
    else (failed e, record { answers = answers; sent = sent }, pointer)

unfoldable pub write_header : ChunkedWriter → Poll (Unit {0}) × ChunkedWriter
write_header w =
    let (poll, writer, pointer) =
      write_loop w.writer.answers w.writer.sent w.header_buffer w.header_buffer_read_pointer in
    (poll, record w { writer = writer; header_buffer_read_pointer = pointer })

unfoldable pub write_body : ChunkedWriter → Poll (Unit {0}) × ChunkedWriter
write_body w =
    let (poll, writer, pointer) =
      write_loop w.writer.answers w.writer.sent (take w.buffer_pointer w.buffer)
        w.buffer_read_pointer in
    (poll, record w { writer = writer; buffer_read_pointer = pointer })

unfoldable pub create_chunk : ChunkedWriter → Option ChunkedWriter
create_chunk w =
    if length w.header_buffer == 0
    then elim (copy_in w.buffer w.buffer_pointer (cr ∷ nl ∷ [])) [
      | none ↦ none
      | some buffer ↦ some (record w {
        header_buffer = hex_digits 16 w.buffer_pointer ++ cr ∷ nl ∷ [];
        buffer = buffer;
        buffer_pointer = w.buffer_pointer + 2;
      })
    ]
    else some w

-- "0" CR NL CR NL
unfoldable pub create_last_chunk : ChunkedWriter → ChunkedWriter
create_last_chunk w =
    if length w.header_buffer == 0
    then record w { header_buffer = 48 ∷ cr ∷ nl ∷ cr ∷ nl ∷ [] }
    else w

unfoldable pub reset : ChunkedWriter → ChunkedWriter
reset w = record w {
  header_buffer = [];
  header_buffer_read_pointer = 0;
  buffer_pointer = 0;
  buffer_read_pointer = 0;
}

-- What a poll that is ready goes on with; another outcome is passed on.
abbrev pub and_then :
    {A : Type 0}
    → Poll (Unit {0}) × ChunkedWriter
    → (ChunkedWriter → Poll A × ChunkedWriter)
    → Poll A × ChunkedWriter
and_then (ready done, w) f = f w
and_then (failed e, w) f = (failed e, w)
and_then (pending, w) f = (pending, w)
and_then (panic, w) f = (panic, w)

unfoldable pub flush_writer : ChunkedWriter → Poll (Unit {0}) × ChunkedWriter
flush_writer w =
    let (poll, writer) = poll_flush_writer w.writer in (poll, record w { writer = writer })

unfoldable pub flush_inner : ChunkedWriter → Poll (Unit {0}) × ChunkedWriter
flush_inner w = if w.finished then (failed IoError.broken_pipe, w) else elim (create_chunk w) [
  | none ↦ (panic, w)
  | some w₁ ↦
      and_then (write_header w₁) (λ w₂. and_then (write_body w₂) (λ w₃. flush_writer (reset w₃)))
]

-- `self.buffer[pointer..pointer + amount].copy_from_slice(&bytes[..amount])` of `write_inner`.
unfoldable pub put : ChunkedWriter → List ℕ → ℕ → Poll ℕ × ChunkedWriter
put w bytes amount = elim (copy_in w.buffer w.buffer_pointer (take amount bytes)) [
  | none ↦ (panic, w)
  | some buffer ↦
      (ready amount, record w { buffer = buffer; buffer_pointer = w.buffer_pointer + amount })
]

-- What `write_inner` does with `bytes` once there is room: it takes what fits, or all.
unfoldable pub fill : ChunkedWriter → List ℕ → Poll ℕ × ChunkedWriter
fill w bytes =
    put w bytes (min (sub_usize (sub_usize (length w.buffer) 2) w.buffer_pointer) (length bytes))

unfoldable pub write_inner : ChunkedWriter → List ℕ → Poll ℕ × ChunkedWriter
write_inner w bytes =
    if w.finished || w.finishing
    then (failed IoError.broken_pipe, w)
    else if leb (sub_usize (length w.buffer) 2) w.buffer_pointer
        || not (length w.header_buffer == 0)
    then and_then (flush_inner w) (λ w'. fill w' bytes)
    else fill w bytes

unfoldable pub shutdown_inner : ChunkedWriter → Poll (Unit {0}) × ChunkedWriter
shutdown_inner w =
    if w.finished
    then (failed IoError.broken_pipe, w)
    else (let w₁ : ChunkedWriter = record w { finishing = true } in
        and_then (if ltb 0 w₁.buffer_pointer then flush_inner w₁ else (ready tt, w₁)) (λ w₂.
          and_then (write_header (create_last_chunk w₂))
            (λ w₃. and_then (flush_writer w₃) (λ w₄. (ready tt, record w₄ { finished = true })))))
