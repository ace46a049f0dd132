-- ===== src/H2/BackgroundRead/Account/Polls.antt =====
-- The polls of a body by its handler, and the drop of the reader after them.
use qhttp.Base.{
  ℕ, ◌+◌, ◌≤◌, ◌<◌, ◌⊎◌, ltb→lt, ◌≡◌, length, refl, ap, ◌∙◌, Bool, List, [], ◌∷◌, ◌++◌,
  append_assoc, Option, none, some, ok, arith, ltb, Bool-cases, inl, inr, IoResult, ◌>>=◌,
}
use qhttp.Buffer.{Buffer, available_for_read}
use qhttp.Buffer.Contents.{contents, capacity}
use qhttp.H2.BackgroundRead.{BackgroundRead, Poll, send_size, update_window, poll_read, drop_reader}
use qhttp.H2.BackgroundRead.Account.{
  sum, unread, account, sends, IsReader, send_size-Sent, send_size-kept, drop_reader-account,
  bytes_of, Polled,
}
use qhttp.H2.BackgroundRead.Account.Parts.{
  available_for_read-contents, no_bytes, read_from-Polled, receive-Polled,
}

-- A poll of the reader succeeds. The bytes that it puts and those that it leaves are the bytes that
-- there were, in their order; what has been handed back, with what is still to be, stays the same while
-- the task of the stream listens.
poll_read-Polled :
    (buffer : Option Buffer) (waiting : List (List ℕ)) (ended : Bool) (sends_left : ℕ)
    (handed_back : List ℕ) (room : ℕ)
    → let r : BackgroundRead = record {
      buffer = buffer;
      waiting = waiting;
      ended = ended;
      sends_left = sends_left;
      handed_back = handed_back;
    } in
      IsReader r
      → (r' : BackgroundRead) × (p : Poll) × (poll_read r room ≡ ok (r', p))
        × Polled (unread r) (account r) (sends r) sends_left r' p
unfolding poll_read update_window
poll_read-Polled none waiting ended sends_left handed_back room v =
    let r : BackgroundRead = record {
      buffer = none;
      waiting = waiting;
      ended = ended;
      sends_left = sends_left;
      handed_back = handed_back;
    } in
    let (r', p, q, o) = receive-Polled waiting r room refl refl v.parts in
    (
      r',
      p,
      q,
      record {
        valid = o.valid;
        in_order = o.in_order;
        at_most = omega (arith, o.at_most);
        exact = λ k. omega (arith, o.exact (omega (arith, k)));
        left = λ k. o.left (omega (arith, k));
      },
    )
poll_read-Polled (some b) waiting ended sends_left handed_back room v =
    let r₀ : BackgroundRead = record {
      buffer = none;
      waiting = waiting;
      ended = ended;
      sends_left = sends_left;
      handed_back = handed_back;
    } in
    elim (Bool-cases (ltb 0 (available_for_read b))) [
      | inl e ↦
          (let (r', p, q, o) =
              read_from-Polled r₀ b room v.parts v.buffered_valid.0 v.buffered_valid.1 in
            (
              r',
              p,
              rw e q,
              record {
                valid = o.valid;
                in_order = o.in_order;
                at_most = o.at_most;
                exact = λ k. o.exact (omega (arith, k));
                left = λ k. o.left (omega (arith, k));
              },
            ))
      | inr e ↦
          (let s = send_size-Sent r₀ (capacity b) v.buffered_valid.1 in
            let (same_buffer, same_waiting) = send_size-kept r₀ (capacity b) in
            let (r', p, q, o) =
              receive-Polled waiting (send_size r₀ (capacity b)) room same_buffer same_waiting
                v.parts in
            let empty : contents b ≡ [] =
              no_bytes (contents b)
                (ground (arith, e, available_for_read-contents v.buffered_valid.0)) in
            let listens : 1 + length waiting ≤ sends_left
                → length waiting ≤ (send_size r₀ (capacity b)).sends_left =
              λ k. omega (arith, k, s.left (omega (arith, k))) in
            (
              r',
              p,
              rw e q,
              record {
                valid = o.valid;
                in_order = o.in_order ∙ rw empty refl;
                at_most = omega (arith, o.at_most, s.at_most);
                exact = λ k. omega (arith, o.exact (listens k), s.exact (omega (arith, k)));
                left = λ k. o.left (listens k);
              },
            ))
    ]

-- Polls with room for `rooms` bytes: the reader after them, and all bytes that were put.
abbrev pub polls : BackgroundRead → List ℕ → IoResult (BackgroundRead × List ℕ)
polls r [] = ok (r, [])
polls r (room ∷ rooms) =
    poll_read r room >>= λ a. polls a.0 rooms >>= λ b. ok (b.0, bytes_of a.1 ++ b.1)

-- What the polls and the drop after them do, whenever the task of the stream ends.
polls-dropped :
    (rooms : List ℕ) (r : BackgroundRead)
    → IsReader r
    → (r' : BackgroundRead) × (put : List ℕ) × (polls r rooms ≡ ok (r', put))
      × (put ++ unread r' ≡ unread r)
      × (sum (drop_reader r') ≤ account r)
      × (sends r ≤ r.sends_left → sum (drop_reader r') ≡ account r)
polls-dropped [] r v =
    let (most, exact) = drop_reader-account r v in (r, [], refl, refl, most, exact)
polls-dropped (room ∷ rooms) r v =
    let (r₁, p, q, o) =
      poll_read-Polled r.buffer r.waiting r.ended r.sends_left r.handed_back room v in
    let (r', put, q', k, most, exact) = polls-dropped rooms r₁ o.valid in
    (
      r',
      bytes_of p ++ put,
      rw (q, q') refl,
      append_assoc (bytes_of p) put (unread r')
          ∙ ap (λ (xs : List ℕ). bytes_of p ++ xs) k
          ∙ o.in_order,
      omega (arith, most, o.at_most),
      λ m. exact (o.left m) ∙ o.exact m,
    )

-- However a body is polled: every poll succeeds, and the bytes put are a front of the bytes of the
-- parts, in their order. When the reader is dropped after the polls, the sizes handed back in all are
-- no more than the sizes of all the parts. They are the sizes of all the parts, so that no window is
-- lost, unless the task of the stream ends before it has received that many sizes: one for the buffer,
-- if there is one, and one for each part that waits. The parts are all shorter than 2^31 bytes.
pub polls-account :
    (rooms : List ℕ) (r : BackgroundRead)
    → IsReader r
    → (r' : BackgroundRead) × (put : List ℕ) × (polls r rooms ≡ ok (r', put))
      × (put ++ unread r' ≡ unread r)
      × (sum (drop_reader r') ≤ account r)
      × ((sum (drop_reader r') ≡ account r) ⊎ (r.sends_left < sends r))
polls-account rooms r v =
    let (r', put, q, k, most, exact) = polls-dropped rooms r v in
    (
      r',
      put,
      q,
      k,
      most,
      elim (Bool-cases (ltb r.sends_left (sends r))) [
        | inl e ↦ inr (ltb→lt _ _ e)
        | inr e ↦ inl (exact (ground (arith, e)))
      ],
    )
