-- ===== src/H2/BackgroundRead/Account.antt =====
-- What is read of a body, and what is handed back for it.
pub mod Parts
pub mod Polls
use qhttp.Base.{
  ℕ, zero, suc, true, ◌==◌, ◌&&◌, ◌+◌, ◌≡◌, ◌≤◌, ◌<◌, ◌^◌, refl, sym, ap, ◌∙◌, Bool, List, [], ◌∷◌,
  ◌++◌, append_assoc, append-nil, Option, none, some, ok, arith, ltb, min, length, slice, take,
  take-length, take-append-drop, All, if◌then◌else◌, Bool-cases, inl, inr, IoResult, ◌>>=◌,
}
use qhttp.Buffer.{Buffer, from_vec, progress, available_for_read}
use qhttp.Buffer.Contents.{IsValid, contents, capacity, length-contents, as_ref-contents}
use qhttp.Buffer.Drain.{progress_lem}
use qhttp.H2.BackgroundRead.{
  BackgroundRead, Poll, ready, pending, send, send_size, send_sizes, drop_buffer, update_window,
  keep, read_from, receive, poll_read, drop_reader,
}

-- A part that a DATA frame can carry has a size that is an `i32`.
abbrev pub IsPart : List ℕ → Type 0
IsPart part = length part < 2 ^ 31

abbrev pub sum : List ℕ → ℕ
sum [] = 0
sum (n ∷ ns) = n + sum ns

abbrev pub sizes : List (List ℕ) → ℕ
sizes [] = 0
sizes (part ∷ parts) = length part + sizes parts

abbrev pub concat : List (List ℕ) → List ℕ
concat [] = []
concat (part ∷ parts) = part ++ concat parts

-- What is not yet read of the body.
abbrev pub buffered : Option Buffer → List ℕ
buffered none = []
buffered (some b) = contents b

abbrev pub held : Option Buffer → ℕ
held none = 0
held (some b) = capacity b

abbrev pub unread : BackgroundRead → List ℕ
unread r = buffered r.buffer ++ concat r.waiting

-- The sizes handed back, and those still to be handed back.
abbrev pub account : BackgroundRead → ℕ
account r = sum r.handed_back + held r.buffer + sizes r.waiting

abbrev pub IsBuffered : Option Buffer → Type 0
IsBuffered none = Unit {0}
IsBuffered (some b) = IsValid b × (capacity b < 2 ^ 31)

pub record IsReader (r : BackgroundRead) : Type 0 where
  pub buffered_valid : IsBuffered r.buffer
  pub parts : All IsPart r.waiting

-- How many sizes are still to be handed back.
abbrev pub in_buffer : Option Buffer → ℕ
in_buffer none = 0
in_buffer (some b) = 1

abbrev pub sends : BackgroundRead → ℕ
sends r = in_buffer r.buffer + length r.waiting

-- From `r` to `r'`, when `n` bytes and `k` sizes were to be handed back: no more than that is, and all
-- of it is while the task of the stream listens.
pub record Sent (r : BackgroundRead) (n k : ℕ) (r' : BackgroundRead) : Type 0 where
  pub at_most : sum r'.handed_back ≤ sum r.handed_back + n
  pub exact : k ≤ r.sends_left → sum r'.handed_back ≡ sum r.handed_back + n
  pub left : k ≤ r.sends_left → r.sends_left ≤ r'.sends_left + k

sum-append : (ns : List ℕ) (n : ℕ) → sum (ns ++ (n ∷ [])) ≡ sum ns + n
sum-append [] n = omega arith
sum-append (m ∷ ns) n = omega (arith, sum-append ns n)

pub send_size-Sent : (r : BackgroundRead) (n : ℕ) → n < 2 ^ 31 → Sent r n 1 (send_size r n)
unfolding send_size
send_size-Sent r n h =
    let small : ltb n (2 ^ 31) ≡ true = ground (arith, h) in rw small (by_left r.sends_left refl)
  where
    by_left : (k : ℕ) → r.sends_left ≡ k → Sent r n 1 (send r n)
    by_left zero e = rw e (record {
      at_most = omega arith;
      exact = λ k. absurd (omega (arith, k, e));
      left = λ k. absurd (omega (arith, k, e));
    })
    by_left (suc m) e = rw e (record {
      at_most = omega (arith, sum-append r.handed_back n);
      exact = λ k. sum-append r.handed_back n;
      left = λ k. omega (arith, e);
    })

-- A send leaves the rest of the reader as it was.
pub send_size-kept :
    (r : BackgroundRead) (n : ℕ)
    → ((send_size r n).buffer ≡ r.buffer) × ((send_size r n).waiting ≡ r.waiting)
unfolding send_size
send_size-kept r n = elim (Bool-cases (ltb n (2 ^ 31))) [
  | inl e ↦ rw e (by_left r.sends_left refl)
  | inr e ↦ rw e (refl, refl)
]
  where
    by_left :
        (k : ℕ)
        → r.sends_left ≡ k
        → ((send r n).buffer ≡ r.buffer) × ((send r n).waiting ≡ r.waiting)
    by_left zero e = rw e (refl, refl)
    by_left (suc m) e = rw e (refl, refl)

send_sizes-Sent :
    (parts : List (List ℕ)) (r : BackgroundRead)
    → All IsPart parts
    → Sent r (sizes parts) (length parts) (send_sizes r parts)
unfolding send_sizes
send_sizes-Sent [] r h = record {
  at_most = omega arith;
  exact = λ k. omega arith;
  left = λ k. omega arith;
}
send_sizes-Sent (part ∷ parts) r h =
    let small : ltb (length part) (2 ^ 31) ≡ true = ground (arith, h.0) in
    let r₁ : BackgroundRead = send_size r (length part) in
    let one = send_size-Sent r (length part) h.0 in
    let more = send_sizes-Sent parts r₁ h.1 in
    elim (Bool-cases (r.sends_left == 0)) [
      | inl e ↦
          let none_left : r.sends_left ≡ 0 = ground (arith, e) in
          rw (small, e)
            (record {
              at_most = omega arith;
              exact = λ k. absurd (omega (arith, k, none_left));
              left = λ k. absurd (omega (arith, k, none_left));
            })
      | inr e ↦
          let some_left : 1 ≤ r.sends_left = ground (arith, e) in
          let enough : length (part ∷ parts) ≤ r.sends_left → length parts ≤ r₁.sends_left =
            λ k. omega (arith, k, one.left some_left) in
          rw (small, e)
            (record {
              at_most = omega (arith, one.at_most, more.at_most);
              exact = λ k. omega (arith, one.exact some_left, more.exact (enough k));
              left = λ k. omega (arith, one.left some_left, more.left (enough k));
            })
    ]

drop_buffer-Sent :
    (r : BackgroundRead) (buffer : Option Buffer)
    → IsBuffered buffer
    → Sent r (held buffer) (in_buffer buffer) (drop_buffer r buffer)
drop_buffer-Sent r none v = record {
  at_most = omega arith;
  exact = λ k. omega arith;
  left = λ k. omega arith;
}
drop_buffer-Sent r (some b) v =
    let s = send_size-Sent (record r { buffer = none }) (capacity b) v.1 in
    record { at_most = s.at_most; exact = s.exact; left = s.left }

-- After the drop: all that is still to be handed back has been, or the task has ended before.
pub drop_reader-account :
    (r : BackgroundRead)
    → IsReader r
    → (sum (drop_reader r) ≤ account r) × (sends r ≤ r.sends_left → sum (drop_reader r) ≡ account r)
unfolding drop_reader
drop_reader-account r v =
    let one = drop_buffer-Sent r r.buffer v.buffered_valid in
    let more = send_sizes-Sent r.waiting (drop_buffer r r.buffer) v.parts in
    (
      omega (arith, one.at_most, more.at_most),
      λ k.
          let first : in_buffer r.buffer ≤ r.sends_left = omega (arith, k) in
          omega (arith, one.exact first, more.exact (omega (arith, k, one.left first))),
    )

abbrev pub bytes_of : Poll → List ℕ
bytes_of (ready put) = put
bytes_of pending = []

-- From the unread bytes `before`, the account `a`, and `k` sizes to send when the task still takes
-- `left₀`: what an answer puts is the front of the bytes. The account does not grow, and stays the
-- same while the task listens.
pub record Polled (before : List ℕ) (a k left₀ : ℕ) (r : BackgroundRead) (p : Poll) : Type 0 where
  pub valid : IsReader r
  pub in_order : bytes_of p ++ unread r ≡ before
  pub at_most : account r ≤ a
  pub exact : k ≤ left₀ → account r ≡ a
  pub left : k ≤ left₀ → sends r ≤ r.sends_left
