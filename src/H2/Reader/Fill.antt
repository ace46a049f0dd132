-- ===== src/H2/Reader/Fill.antt =====
-- Filling the buffer: the bytes that were unread and the bytes that arrive keep their order.
use qhttp.Base.{
  ℕ, zero, suc, ◌-◌, ◌≡◌, ◌≤◌, ◌<◌, refl, ap, ◌∙◌, Bool, true, false, List, [], ◌∷◌, ◌++◌,
  append_assoc, ok, arith, leb, ◌==◌, length, take, length-take, length-append, length-drop,
  Bool-cases, leb→le, inl, inr, min,
}
use qhttp.Buffer.{Buffer, available_for_read, available_for_write}
use qhttp.Buffer.Contents.{IsValid, contents, capacity, length-contents}
use qhttp.Buffer.Fill.{read_from_reader_lem}
use qhttp.H2.Reader.{Arrival, bytes, failed, Connected, deliver, arrive, read_some, fill}

-- All bytes that are still to come; they come without an error and in pieces that are not empty.
abbrev pub all_bytes : List Arrival → List ℕ
all_bytes [] = []
all_bytes (bytes piece ∷ rest) = piece ++ all_bytes rest
all_bytes (failed e ∷ rest) = []

abbrev pub Arrives : List Arrival → Type 0
Arrives [] = Unit {0}
Arrives (bytes piece ∷ rest) = (0 < length piece) × Arrives rest
Arrives (failed e ∷ rest) = Unit {0}

-- The bytes ahead of the program: unread in the buffer, or still to arrive.
abbrev pub ahead : Connected → List ℕ
ahead c = contents c.buffer ++ all_bytes c.arrivals

-- `c'` has the same bytes ahead, in a valid buffer of the same capacity.
pub record Same (c c' : Connected) : Type 0 where
  pub valid : IsValid c'.buffer
  pub fed : Arrives c'.arrivals
  pub same : ahead c' ≡ ahead c
  pub room : capacity c'.buffer ≡ capacity c.buffer

pub arrive-bytes :
    (piece : List ℕ) (rest : List Arrival) (n : ℕ)
    → take n piece ++ all_bytes (arrive (bytes piece ∷ rest) (length (take n piece)))
      ≡ piece ++ all_bytes rest
arrive-bytes [] rest zero = refl
arrive-bytes [] rest (suc n) = refl
arrive-bytes (x ∷ xs) rest zero = ground arith
arrive-bytes (x ∷ xs) rest (suc n) =
    let h = arrive-bytes xs rest n in
    elim (Bool-cases (leb (length xs) (length (take n xs)))) [
      | inl e ↦
          (let h' = rw e at h in
            let e' : leb (suc (length xs)) (suc (length (take n xs))) ≡ true = ground (arith, e) in
            rw e' (ap (◌∷◌ x) h'))
      | inr e ↦
          (let h' = rw e at h in
            let e' : leb (suc (length xs)) (suc (length (take n xs))) ≡ false = ground (arith, e) in
            rw e' (ap (◌∷◌ x) h'))
    ]

pub arrive-Arrives :
    (piece : List ℕ) (rest : List Arrival) (n : ℕ)
    → Arrives rest
    → Arrives (arrive (bytes piece ∷ rest) n)
arrive-Arrives piece rest n h = elim (Bool-cases (leb (length piece) n)) [
  | inl e ↦ rw e h
  | inr e ↦ rw e (ground (arith, e, length-drop n piece), h)
]

pub read_some_lem :
    (b : Buffer) (piece : List ℕ) (rest : List Arrival)
    → let c : Connected = record { buffer = b; arrivals = bytes piece ∷ rest } in
      IsValid b
      → Arrives c.arrivals
      → length (contents b) < capacity b
      → (c' : Connected) × (read_some c ≡ ok c')
        × Same c c'
        × (length (contents b) < length (contents c'.buffer))
unfolding read_some
read_some_lem b piece rest v a less =
    let c : Connected = record { buffer = b; arrivals = bytes piece ∷ rest } in
    let room : ℕ = capacity b - length (contents b) in
    let size : length (take room piece) ≡ min room (length piece) = length-take room piece in
    let (b', e, v', ct, cp) =
      read_from_reader_lem (deliver c.arrivals) (take room piece) v refl (omega (arith, size)) in
    let zero_test : (length (take room piece) == 0) ≡ false = ground (arith, size, a.0, less) in
    (
      record { buffer = b'; arrivals = arrive c.arrivals (length (take room piece)) },
      rw e (rw zero_test refl),
      record {
        valid = v';
        fed = arrive-Arrives piece rest (length (take room piece)) a.1;
        same =
            ap (λ (xs : List ℕ). xs ++ all_bytes (arrive c.arrivals (length (take room piece)))) ct
            ∙ append_assoc (contents b) (take room piece) _
            ∙ ap (λ (xs : List ℕ). contents b ++ xs) (arrive-bytes piece rest room);
        room = cp;
      },
      rw ct (omega (arith, size, length-append (contents b) (take room piece), a.0, less)),
    )

Same-trans : (c d e : Connected) → Same c d → Same d e → Same c e
Same-trans c d e s t = record {
  valid = t.valid;
  fed = t.fed;
  same = t.same ∙ s.same;
  room = t.room ∙ s.room;
}

pub available_for_read-contents :
    {b : Buffer} → IsValid b → available_for_read b ≡ length (contents b)
unfolding available_for_read
available_for_read-contents {b} v = ground (arith, length-contents v)

pub available_for_write-contents :
    {b : Buffer} → IsValid b → available_for_write b ≡ capacity b - length (contents b)
unfolding available_for_write
available_for_write-contents {b} v = ground (arith, length-contents v)

filled :
    (fuel : ℕ) (check_full : Bool) (size : ℕ) (c : Connected)
    → IsValid c.buffer
    → Arrives c.arrivals
    → size ≤ length (contents c.buffer)
    → (c' : Connected) × (fill (suc fuel) check_full size c ≡ ok c')
      × Same c c'
      × (size ≤ length (contents c'.buffer))
unfolding fill
filled fuel check_full size c v a h =
    let e : leb size (available_for_read c.buffer) ≡ true =
      rw (available_for_read-contents v) (ground (arith, h)) in
    (c, rw e refl, record { valid = v; fed = a; same = refl; room = refl }, h)

-- The loop goes on after a read.
fill-more :
    (fuel : ℕ) (check_full : Bool) (size : ℕ) (c c' : Connected)
    → IsValid c.buffer
    → length (contents c.buffer) < size
    → size ≤ capacity c.buffer
    → read_some c ≡ ok c'
    → fill (suc fuel) check_full size c ≡ fill fuel check_full size c'
unfolding fill
fill-more fuel check_full size c c' v less fits e =
    let short : leb size (available_for_read c.buffer) ≡ false =
      rw (available_for_read-contents v) (ground (arith, less)) in
    let free : (available_for_write c.buffer == 0) ≡ false =
      rw (available_for_write-contents v) (ground (arith, less, fits)) in
    elim (Bool-cases check_full) [
      | inl f ↦ rw (short, f, free, e) refl
      | inr f ↦ rw (short, f, e) refl
    ]

-- When enough bytes are ahead, and fit, the buffer is filled with them.
pub fill_lem :
    (fuel : ℕ) (check_full : Bool) (size : ℕ) (b : Buffer) (arrivals : List Arrival)
    → let c : Connected = record { buffer = b; arrivals = arrivals } in
      IsValid b
      → Arrives arrivals
      → size ≤ capacity b
      → size ≤ length (ahead c)
      → size - length (contents b) < fuel
      → (c' : Connected) × (fill fuel check_full size c ≡ ok c')
        × Same c c'
        × (size ≤ length (contents c'.buffer))
fill_lem zero check_full size b arrivals v a fits there enough = absurd (omega (arith, enough))
fill_lem (suc fuel) check_full size b [] v a fits there enough =
    filled fuel check_full size (record { buffer = b; arrivals = [] }) v a
      (ground (arith, there, length-append (contents b) []))
fill_lem (suc fuel) check_full size b (failed e ∷ rest) v a fits there enough =
    filled fuel check_full size (record { buffer = b; arrivals = failed e ∷ rest }) v a
      (ground (arith, there, length-append (contents b) []))
fill_lem (suc fuel) check_full size b (bytes piece ∷ rest) v a fits there enough =
    let c : Connected = record { buffer = b; arrivals = bytes piece ∷ rest } in
    elim (Bool-cases (leb size (length (contents b)))) [
      | inl e ↦ filled fuel check_full size c v a (leb→le _ _ e)
      | inr e ↦
          (let less : length (contents b) < size = ground (arith, e) in
            let (c', r, s, grows) = read_some_lem b piece rest v a (omega (arith, less, fits)) in
            let (c'', q, t, done) =
              fill_lem fuel check_full size c'.buffer c'.arrivals s.valid s.fed (rw s.room fits)
                (rw s.same there) (omega (arith, enough, grows, less)) in
            (
              c'',
              fill-more fuel check_full size c c' v less fits r ∙ q,
              Same-trans c c' c'' s t,
              done,
            ))
    ]
