-- ===== src/Http1/Bodies/Order.antt =====
-- What the connection gives to the reader of a body: the bytes that follow, in their order.
use qhttp.Base.{
  ℕ, ◌+◌, ◌-◌, ◌≡◌, ◌≤◌, ◌<◌, inl, inr, refl, ap, ◌∙◌, sym, Bool-cases, List, [], ◌∷◌, ◌++◌,
  append_assoc, some, ok, arith, leb, min, length, length-append, length-take, take, drop,
  take-append-drop, take-length, drop-all, slice,
}
use qhttp.Buffer.{Buffer, progress, available_for_read}
use qhttp.Buffer.Contents.{IsValid, contents, capacity, length-contents, as_ref-contents}
use qhttp.Buffer.Fill.{write_lem, read_from_reader_lem}
use qhttp.Buffer.Drain.{progress_lem}
use qhttp.H2.Reader.{Arrival, bytes, failed, deliver, arrive}
use qhttp.H2.Reader.Fill.{
  all_bytes, Arrives, arrive-bytes, arrive-Arrives, available_for_read-contents,
}
use qhttp.Http1.Bodies.{Connection, Served, read_into_buffer, give_part, give_all, give}

-- The bytes ahead of a connection: unread, or still to arrive.
abbrev pub ahead : Connection → List ℕ
ahead c = contents c.buffer ++ all_bytes c.arrivals

-- No bytes arrive next: the reader is at its end, or fails.
abbrev pub IsStopped : List Arrival → Type 0
IsStopped [] = Unit {0}
IsStopped (bytes piece ∷ rest) = ⊥
IsStopped (failed e ∷ rest) = Unit {0}

-- A connection whose buffer is valid and has room for a byte.
pub record IsReady (c : Connection) : Type 0 where
  pub valid : IsValid c.buffer
  pub some_room : 0 < capacity c.buffer
  pub fed : Arrives c.arrivals

-- `body'` has got at most `amount` bytes, and at least one, from those ahead of `c`; `c'` has the rest.
pub record Fed (c : Connection) (body : Buffer) (amount : ℕ) (c' : Connection) (body' : Buffer)
    : Type 0 where
  pub prepared : IsReady c'
  pub valid : IsValid body'
  pub room : capacity body' ≡ capacity body
  pub in_order : contents body' ++ ahead c' ≡ contents body ++ ahead c
  pub at_most : length (contents body') ≤ length (contents body) + amount
  pub at_least : length (contents body) < length (contents body')
  pub written : c'.written ≡ c.written
  pub asked : c'.expects_continue ≡ c.expects_continue

pub give_part_lem :
    (c : Connection) (body : Buffer) (amount : ℕ)
    → IsReady c
    → IsValid body
    → 0 < amount
    → amount ≤ length (contents c.buffer)
    → amount ≤ capacity body - length (contents body)
    → (c' : Connection) × (body' : Buffer) × (give_part c body amount ≡ ok (c', body'))
      × Fed c body amount c' body'
unfolding give_part
give_part_lem c body amount h v positive there fits =
    let unread : List ℕ = contents c.buffer in
    let part : List ℕ = take amount unread in
    let size : length part ≡ amount = omega (arith, length-take amount unread, there) in
    let sliced : slice unread 0 amount ≡ some part = ground (arith, there) in
    let (w, k, s) =
      progress_lem {b = c.buffer} amount h.valid
        (omega (arith, there, length-contents h.valid, h.valid.in_range, h.valid.small)) in
    let (body', e, v', cb, r) = write_lem part v in
    let all : min (capacity body - length (contents body)) (length part) ≡ length part =
      omega (arith, size, fits) in
    let whole : contents body' ≡ contents body ++ part =
      cb
      ∙ ap (λ (n : ℕ). contents body ++ take n part) all
      ∙ ap (λ (xs : List ℕ). contents body ++ xs) (take-length part) in
    (
      record c { buffer = progress c.buffer amount },
      body',
      rw (as_ref-contents h.valid, sliced, e) refl,
      record {
        prepared = record { valid = w; some_room = omega (arith, s, h.some_room); fed = h.fed };
        valid = v';
        room = r;
        in_order =
            rw (whole, k)
              (append_assoc (contents body) part (drop amount unread ++ all_bytes c.arrivals)
                ∙ ap (λ (xs : List ℕ). contents body ++ xs)
                    (sym (append_assoc part (drop amount unread) (all_bytes c.arrivals))
                      ∙ ap (λ (xs : List ℕ). xs ++ all_bytes c.arrivals)
                          (take-append-drop amount unread)));
        at_most = rw whole (omega (arith, length-append (contents body) part, size));
        at_least = rw whole (omega (arith, length-append (contents body) part, size));
        written = refl;
        asked = refl;
      },
    )

-- All unread bytes are given; none are left.
pub record Given (c : Connection) (body : Buffer) (c' : Connection) (body' : Buffer) : Type 0 where
  pub prepared : IsReady c'
  pub valid : IsValid body'
  pub room : capacity body' ≡ capacity body
  pub taken : contents body' ≡ contents body ++ contents c.buffer
  pub left : contents c'.buffer ≡ []
  pub arrivals : c'.arrivals ≡ c.arrivals
  pub written : c'.written ≡ c.written
  pub asked : c'.expects_continue ≡ c.expects_continue

pub give_all_lem :
    (c : Connection) (body : Buffer)
    → IsReady c
    → IsValid body
    → length (contents c.buffer) ≤ capacity body - length (contents body)
    → (c' : Connection) × (body' : Buffer) × (give_all c body
        ≡ ok (c', body', length (contents c.buffer)))
      × Given c body c' body'
unfolding give_all
give_all_lem c body h v fits =
    let unread : List ℕ = contents c.buffer in
    let (body', e, v', cb, r) = write_lem unread v in
    let all : min (capacity body - length (contents body)) (length unread) ≡ length unread =
      omega (arith, fits) in
    let (w, k, s) =
      progress_lem {b = c.buffer} (length unread) h.valid
        (omega (arith, length-contents h.valid, h.valid.in_range, h.valid.small)) in
    (
      record c { buffer = progress c.buffer (length unread) },
      body',
      rw (as_ref-contents h.valid, e, all) refl,
      record {
        prepared = record { valid = w; some_room = omega (arith, s, h.some_room); fed = h.fed };
        valid = v';
        room = r;
        taken =
            cb
            ∙ ap (λ (n : ℕ). contents body ++ take n unread) all
            ∙ ap (λ (xs : List ℕ). contents body ++ xs) (take-length unread);
        left = k ∙ drop-all (length unread) unread (omega arith);
        arrivals = refl;
        written = refl;
        asked = refl;
      },
    )

abbrev pub GivesTo : Connection → Buffer → ℕ → Served (Connection × Buffer) → Type 0
GivesTo c body amount served =
    (c' : Connection) × (body' : Buffer) × (served ≡ ok (c', body')) × Fed c body amount c' body'

pub give_lem :
    (c : Connection) (body : Buffer) (amount : ℕ)
    → IsReady c
    → IsValid body
    → 0 < amount
    → 0 < length (contents c.buffer)
    → amount ≤ capacity body - length (contents body)
    → GivesTo c body amount (give c body amount)
unfolding give
give_lem c body amount h v positive there fits =
    let unread : available_for_read c.buffer ≡ length (contents c.buffer) =
      available_for_read-contents h.valid in
    elim (Bool-cases (leb amount (available_for_read c.buffer))) [
      | inl e ↦ rw e (give_part_lem c body amount h v positive (ground (arith, e, unread)) fits)
      | inr e ↦
          let less : length (contents c.buffer) < amount = ground (arith, e, unread) in
          let (c', body', q, g) = give_all_lem c body h v (omega (arith, less, fits)) in
          let size : length (contents body') ≡ length (contents body) + length (contents c.buffer) =
            rw g.taken (length-append (contents body) (contents c.buffer)) in
          (
            c',
            body',
            rw (e, q) refl,
            record {
              prepared = g.prepared;
              valid = g.valid;
              room = g.room;
              in_order =
                  rw (g.taken, g.left, g.arrivals)
                    (append_assoc (contents body) (contents c.buffer) (all_bytes c.arrivals));
              at_most = omega (arith, size, less);
              at_least = omega (arith, size, there);
              written = g.written;
              asked = g.asked;
            },
          )
    ]

-- A read of bytes that arrive.
pub read_into_buffer_lem :
    (c : Connection) (piece : List ℕ) (rest : List Arrival)
    → c.arrivals ≡ bytes piece ∷ rest
    → IsReady c
    → length (contents c.buffer) < capacity c.buffer
    → (c' : Connection) × (n : ℕ) × (read_into_buffer c ≡ ok (c', n))
      × (0 < n)
      × IsReady c'
      × (ahead c' ≡ ahead c)
      × (length (contents c'.buffer) ≡ length (contents c.buffer) + n)
      × (c'.written ≡ c.written)
      × (c'.expects_continue ≡ c.expects_continue)
unfolding read_into_buffer
read_into_buffer_lem c piece rest q h less =
    let room : ℕ = capacity c.buffer - length (contents c.buffer) in
    let put : List ℕ = take room piece in
    let size : length put ≡ min room (length piece) = length-take room piece in
    let fed : Arrives (bytes piece ∷ rest) = rw (q) at h.fed in
    let delivered : deliver c.arrivals room ≡ ok put = rw (q) refl in
    let (b', e, v', ct, cp) =
      read_from_reader_lem (deliver c.arrivals) put h.valid delivered (omega (arith, size)) in
    (
      record c { buffer = b'; arrivals = arrive c.arrivals (length put) },
      length put,
      rw e refl,
      omega (arith, size, less, fed.0),
      record {
        valid = v';
        some_room = omega (arith, cp, h.some_room);
        fed = rw q (arrive-Arrives piece rest (length put) fed.1);
      },
      rw (ct, q)
          (append_assoc (contents c.buffer) put _
            ∙ ap (λ (xs : List ℕ). contents c.buffer ++ xs) (arrive-bytes piece rest room)),
      rw ct (length-append (contents c.buffer) put),
      refl,
      refl,
    )
