-- ===== src/H2/Reader/Fragments.antt =====
-- A frame is read whole, in whatever pieces its bytes arrive.
use qhttp.Base.{
  ℕ, zero, suc, ◌≡◌, ◌≢◌, ◌≤◌, ◌<◌, ◌^◌, refl, sym, ap, ◌∙◌, true, false, List, [], ◌∷◌, ◌++◌, ok,
  arith, length, take, drop, slice, drop-append_self, length-append, IsU31, some,
}
use qhttp.Buffer.{Buffer, progress}
use qhttp.Buffer.Contents.{
  IsValid, contents, capacity, length-contents, as_ref-contents, rotate_buffer_lem,
}
use qhttp.Buffer.Drain.{progress_lem}
use qhttp.H2.Crates.{FrameType, Crates, flag_padded, flag_priority}
use qhttp.H2.Frame.{Frame}
use qhttp.H2.Frame.Wire.{from_slice, from_header_and_payload, frame_bytes}
use qhttp.H2.Frame.Wire.Legal.{IsLegal}
use qhttp.H2.Frame.Wire.RoundTrip.{raw_of, from_slice-frame_bytes, read_frame-frame_bytes}
use qhttp.H2.Reader.{
  Arrival, Connected, fill, consume, header_size, read_header, read_payload, read_next_frame,
}
use qhttp.H2.Reader.Fill.{all_bytes, Arrives, ahead, Same, fill_lem}

drop-append :
    {A : Type 0} (n : ℕ) (xs ys : List A) → n ≤ length xs → drop n (xs ++ ys) ≡ drop n xs ++ ys
drop-append zero xs ys h = refl
drop-append (suc n) [] ys h = absurd (omega (arith, h))
drop-append (suc n) (x ∷ xs) ys h = drop-append n xs ys (omega (arith, h))

-- Taking a front that is there.
front :
    (xs ys p rest : List ℕ) → xs ++ ys ≡ p ++ rest → length p ≤ length xs → take (length p) xs ≡ p
front xs ys [] rest e h = refl
front [] ys (b ∷ p) rest e h = absurd (omega (arith, h))
front (x ∷ xs) ys (b ∷ p) rest e h =
    let head : x ≡ b = cc in
    let tail : xs ++ ys ≡ p ++ rest = cc in
    rw (head, front xs ys p rest tail (omega (arith, h))) refl

-- A raw header needs nine bytes only.
from_slice-append :
    (xs ys : List ℕ) → header_size ≤ length xs → from_slice (xs ++ ys) ≡ from_slice xs
unfolding from_slice
from_slice-append [] ys h = absurd (omega (arith, h))
from_slice-append (b₀ ∷ []) ys h = absurd (omega (arith, h))
from_slice-append (b₀ ∷ b₁ ∷ []) ys h = absurd (omega (arith, h))
from_slice-append (b₀ ∷ b₁ ∷ b₂ ∷ []) ys h = absurd (omega (arith, h))
from_slice-append (b₀ ∷ b₁ ∷ b₂ ∷ b₃ ∷ []) ys h = absurd (omega (arith, h))
from_slice-append (b₀ ∷ b₁ ∷ b₂ ∷ b₃ ∷ b₄ ∷ []) ys h = absurd (omega (arith, h))
from_slice-append (b₀ ∷ b₁ ∷ b₂ ∷ b₃ ∷ b₄ ∷ b₅ ∷ []) ys h = absurd (omega (arith, h))
from_slice-append (b₀ ∷ b₁ ∷ b₂ ∷ b₃ ∷ b₄ ∷ b₅ ∷ b₆ ∷ []) ys h = absurd (omega (arith, h))
from_slice-append (b₀ ∷ b₁ ∷ b₂ ∷ b₃ ∷ b₄ ∷ b₅ ∷ b₆ ∷ b₇ ∷ []) ys h = absurd (omega (arith, h))
from_slice-append (b₀ ∷ b₁ ∷ b₂ ∷ b₃ ∷ b₄ ∷ b₅ ∷ b₆ ∷ b₇ ∷ b₈ ∷ xs) ys h =
    ground (arith, length-append xs ys)

frame_bytes-long : (f : Frame) (rest : List ℕ) → header_size ≤ length (frame_bytes f ++ rest)
unfolding frame_bytes
frame_bytes-long f rest = ground arith

-- Consuming unread bytes.
consume_lem :
    (c : Connected) (n : ℕ)
    → IsValid c.buffer
    → Arrives c.arrivals
    → n ≤ length (contents c.buffer)
    → (c' : Connected) × (consume c n ≡ ok c')
      × IsValid c'.buffer
      × Arrives c'.arrivals
      × (ahead c' ≡ drop n (ahead c))
      × (contents c'.buffer ≡ drop n (contents c.buffer))
      × (capacity c'.buffer ≡ capacity c.buffer)
unfolding consume
consume_lem c n v a h =
    let small : n < 2 ^ 63 = omega (arith, h, length-contents v, v.small, v.in_range) in
    let (w, k, r) = progress_lem {b = c.buffer} n v small in
    let (b', e, w', k', z, r') = rotate_buffer_lem {b = progress c.buffer n} w in
    (
      record { buffer = b'; arrivals = c.arrivals },
      rw e refl,
      w',
      a,
      ap (λ (xs : List ℕ). xs ++ all_bytes c.arrivals) (k' ∙ k)
          ∙ sym (drop-append n (contents c.buffer) (all_bytes c.arrivals) h),
      k' ∙ k,
      r' ∙ r,
    )

-- What is left after consuming `p` of the bytes ahead.
record Consumed (c : Connected) (rest : List ℕ) (b : Buffer) : Type 0 where
  valid : IsValid c.buffer
  fed : Arrives c.arrivals
  left : ahead c ≡ rest
  room : capacity c.buffer ≡ capacity b

header_at :
    (c c₁ : Connected) (f : Frame) (rest : List ℕ)
    → fill (suc header_size) false header_size c ≡ ok c₁
    → Same c c₁
    → header_size ≤ length (contents c₁.buffer)
    → ahead c ≡ frame_bytes f ++ rest
    → length f.payload < 2 ^ 24
    → IsU31 f.header.stream
    → (c' : Connected) × (read_header c ≡ ok (raw_of f, c'))
      × Consumed c' (f.payload ++ rest) c.buffer
unfolding read_header
header_at c c₁ f rest e s there front_of len u =
    let (parsed, dropped) = from_slice-frame_bytes f rest len u in
    let header : from_slice (contents c₁.buffer) ≡ ok (raw_of f) =
      sym (from_slice-append (contents c₁.buffer) (all_bytes c₁.arrivals) there)
      ∙ ap from_slice (s.same ∙ front_of)
      ∙ parsed in
    let (c', e', v', a', k, l, r) = consume_lem c₁ header_size s.valid s.fed there in
    (
      c',
      rw (e, as_ref-contents s.valid, header, e') refl,
      record {
        valid = v';
        fed = a';
        left = k ∙ ap (drop header_size) (s.same ∙ front_of) ∙ dropped;
        room = r ∙ s.room;
      },
    )

module _ (lib : Crates) where
  payload_at :
      (c c₁ : Connected) (f : Frame) (rest : List ℕ)
      → fill (suc (length f.payload)) true (length f.payload) c ≡ ok c₁
      → Same c c₁
      → length f.payload ≤ length (contents c₁.buffer)
      → ahead c ≡ f.payload ++ rest
      → from_header_and_payload lib (raw_of f) f.payload ≡ ok f
      → (c' : Connected) × (read_payload lib (raw_of f) c ≡ ok (f, c')) × Consumed c' rest c.buffer
  unfolding read_payload
  payload_at c c₁ f rest e s there front_of parsed =
      let payload : take (length f.payload) (contents c₁.buffer) ≡ f.payload =
        front (contents c₁.buffer) (all_bytes c₁.arrivals) f.payload rest (s.same ∙ front_of)
          there in
      let (c', e', v', a', k, l, r) = consume_lem c₁ (length f.payload) s.valid s.fed there in
      let sliced : slice (contents c₁.buffer) 0 (length f.payload) ≡ some f.payload =
        ground (arith, payload, there) in
      (
        c',
        rw (e, as_ref-contents s.valid, sliced, parsed, e') refl,
        record {
          valid = v';
          fed = a';
          left =
              k
              ∙ ap (drop (length f.payload)) (s.same ∙ front_of)
              ∙ drop-append_self f.payload rest;
          room = r ∙ s.room;
        },
      )

  -- Whatever was unread and in whatever pieces the rest arrives, none of them empty: when the bytes
  -- of a written frame are ahead, and the buffer can hold a header and the payload, that frame is
  -- what `read_next_frame` reads, and exactly its bytes are consumed. The frame is one that the
  -- server can read: legal, no CONTINUATION, with known flags only and not padded.
  pub read_next_frame-frame_bytes :
      (b : Buffer) (arrivals : List Arrival) (f : Frame) (rest : List ℕ)
      → IsValid b
      → Arrives arrivals
      → ahead (record { buffer = b; arrivals = arrivals }) ≡ frame_bytes f ++ rest
      → header_size ≤ capacity b
      → length f.payload ≤ capacity b
      → length f.payload < 2 ^ 24
      → IsU31 f.header.stream
      → lib.flags.from_bits_truncate f.header.flags ≡ f.header.flags
      → lib.flags.contains f.header.flags flag_padded ≡ false
      → f.header.type ≢ FrameType.continuation
      → IsLegal f.header.type false
          (lib.flags.contains f.header.flags flag_priority)
          (length f.payload)
          f.header.stream
      → (c' : Connected) × (read_next_frame lib (record { buffer = b; arrivals = arrivals })
          ≡ ok (f, c'))
        × IsValid c'.buffer
        × (ahead c' ≡ rest)
        × (capacity c'.buffer ≡ capacity b)
  unfolding read_next_frame
  read_next_frame-frame_bytes b arrivals f rest v a front_of room₉ roomₚ len s known unpadded ne
        legal =
      let c : Connected = record { buffer = b; arrivals = arrivals } in
      let (c₁, e₁, s₁, there₁) =
        fill_lem (suc header_size) false header_size b arrivals v a room₉
          (rw front_of (frame_bytes-long f rest)) (omega arith) in
      let (c₂, e₂, t₂) = header_at c c₁ f rest e₁ s₁ there₁ front_of len s in
      let (c₃, e₃, s₃, there₃) =
        fill_lem (suc (length f.payload)) true (length f.payload) c₂.buffer c₂.arrivals t₂.valid
          t₂.fed (rw t₂.room roomₚ) (rw t₂.left (omega (arith, length-append f.payload rest)))
          (omega arith) in
      let parsed : from_header_and_payload lib (raw_of f) f.payload ≡ ok f =
        rw (from_slice-frame_bytes f rest len s).0 at
          (read_frame-frame_bytes lib f rest len s known unpadded ne legal) in
      let (c₄, e₄, t₄) = payload_at c₂ c₃ f rest e₃ s₃ there₃ t₂.left parsed in
      (c₄, rw (e₂, e₄) refl, t₄.valid, t₄.left, t₄.room ∙ t₂.room)
