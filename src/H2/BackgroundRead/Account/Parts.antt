-- ===== src/H2/BackgroundRead/Account/Parts.antt =====
-- A part that a poll reads from, whether it was kept by the poll before or is received now.
use qhttp.Base.{
  ℕ, suc, ◌+◌, ◌≡◌, ◌≤◌, ◌<◌, ◌^◌, refl, sym, ap, ◌∙◌, List, [], ◌∷◌, ◌++◌, append_assoc,
  append-nil, none, some, ok, arith, ltb, min, length, slice, take, take-length, take-append-drop,
  All, if◌then◌else◌, Bool-cases, inl, inr,
}
use qhttp.Buffer.{Buffer, from_vec, progress, available_for_read}
use qhttp.Buffer.Contents.{IsValid, contents, capacity, length-contents, as_ref-contents}
use qhttp.Buffer.Drain.{progress_lem}
use qhttp.H2.BackgroundRead.{
  BackgroundRead, Poll, ready, pending, send_size, update_window, keep, read_from, receive,
}
use qhttp.H2.BackgroundRead.Account.{
  IsPart, sum, sizes, concat, unread, account, sends, send_size-Sent, send_size-kept, Polled,
}

pub available_for_read-contents :
    {b : Buffer} → IsValid b → available_for_read b ≡ length (contents b)
unfolding available_for_read
available_for_read-contents {b} v = ground (arith, length-contents v)

pub no_bytes : (xs : List ℕ) → length xs ≡ 0 → xs ≡ []
no_bytes [] h = refl
no_bytes (x ∷ xs) h = absurd (omega (arith, h))

keep-Polled :
    (r : BackgroundRead) (b : Buffer) (put : List ℕ)
    → All IsPart r.waiting
    → IsValid b
    → capacity b < 2 ^ 31
    → Polled
        (put ++ contents b ++ concat r.waiting)
        (sum r.handed_back + capacity b + sizes r.waiting)
        (suc (length r.waiting))
        r.sends_left
        (keep r b)
        (ready put)
unfolding keep update_window
keep-Polled r b put parts v small = elim (Bool-cases (ltb 0 (available_for_read b))) [
  | inl e ↦ rw e (record {
    valid = record { buffered_valid = (v, small); parts = parts };
    in_order = sym (append_assoc put (contents b) (concat r.waiting));
    at_most = omega arith;
    exact = λ k. refl;
    left = λ k. omega (arith, k);
  })
  | inr e ↦
      let s = send_size-Sent (record r { buffer = none }) (capacity b) small in
      let (same_buffer, same_waiting) = send_size-kept (record r { buffer = none }) (capacity b) in
      let bytes_left : contents b ≡ [] =
        no_bytes (contents b) (ground (arith, e, available_for_read-contents v)) in
      let sent : BackgroundRead = send_size (record r { buffer = none }) (capacity b) in
      let kept : unread sent ≡ concat r.waiting = rw (same_buffer, same_waiting) refl in
      let account_of : account sent ≡ sum sent.handed_back + sizes r.waiting =
        rw (same_buffer, same_waiting) (omega arith) in
      let sends_of : sends sent ≡ length r.waiting = rw (same_buffer, same_waiting) (omega arith) in
      rw e (record {
        valid = record { buffered_valid = rw same_buffer tt; parts = rw same_waiting parts };
        in_order =
            ap (λ (xs : List ℕ). put ++ xs) kept
            ∙ rw bytes_left (ap (λ (xs : List ℕ). xs ++ concat r.waiting) (sym (append-nil put)));
        at_most = omega (arith, account_of, s.at_most);
        exact = λ k. omega (arith, account_of, s.exact (omega (arith, k)));
        left = λ k. omega (arith, sends_of, s.left (omega (arith, k)), k);
      })
]

pub read_from-Polled :
    (r : BackgroundRead) (b : Buffer) (room : ℕ)
    → All IsPart r.waiting
    → IsValid b
    → capacity b < 2 ^ 31
    → (r' : BackgroundRead) × (p : Poll) × (read_from r b room ≡ ok (r', p))
      × Polled
          (contents b ++ concat r.waiting)
          (sum r.handed_back + capacity b + sizes r.waiting)
          (suc (length r.waiting))
          r.sends_left
          r'
          p
unfolding read_from
read_from-Polled r b room parts v small =
    let amount : ℕ = min (available_for_read b) room in
    let put : List ℕ = take amount (contents b) in
    let le : amount ≤ length (contents b) = omega (arith, available_for_read-contents v) in
    let sliced : slice (contents b) 0 amount ≡ some put = ground (arith, le) in
    let (w, k, c) =
      progress_lem {b = b} amount v (omega (arith, le, length-contents v, small, v.in_range)) in
    let o = keep-Polled r (progress b amount) put parts w (omega (arith, c, small)) in
    (
      keep r (progress b amount),
      ready put,
      rw (as_ref-contents v, sliced) refl,
      record {
        valid = o.valid;
        in_order =
            o.in_order
            ∙ ap (λ (xs : List ℕ). (put ++ xs) ++ concat r.waiting) k
            ∙ ap (λ (xs : List ℕ). xs ++ concat r.waiting) (take-append-drop amount (contents b));
        at_most = omega (arith, o.at_most, c);
        exact = λ k. omega (arith, o.exact k, c);
        left = o.left;
      },
    )

from_vec_lem :
    (part : List ℕ)
    → length part < 2 ^ 31
    → IsValid (from_vec part)
      × (contents (from_vec part) ≡ part)
      × (capacity (from_vec part) ≡ length part)
unfolding from_vec
from_vec_lem part h = (
  record { ordered = omega arith; in_range = omega arith; small = omega (arith, h) },
  ground (arith, take-length part),
  refl,
)

pub receive-Polled :
    (parts : List (List ℕ)) (r : BackgroundRead) (room : ℕ)
    → r.buffer ≡ none
    → r.waiting ≡ parts
    → All IsPart parts
    → (r' : BackgroundRead) × (p : Poll) × (receive r room ≡ ok (r', p))
      × Polled (concat parts) (sum r.handed_back + sizes parts) (length parts) r.sends_left r' p
unfolding receive
receive-Polled [] r room e w h = (
  r,
  if r.ended then ready [] else pending,
  rw w refl,
  record {
    valid = record { buffered_valid = rw e tt; parts = rw w tt };
    in_order = elim (Bool-cases r.ended) [ inl k ↦ rw (e, w, k) refl | inr k ↦ rw (e, w, k) refl ];
    at_most = rw (e, w) (omega arith);
    exact = λ k. rw (e, w) (omega arith);
    left = λ k. rw (e, w) (omega arith);
  },
)
receive-Polled (part ∷ rest) r room e w h =
    let r' : BackgroundRead = record r { waiting = rest } in
    let (v, c, k) = from_vec_lem part h.0 in
    elim (Bool-cases (ltb 0 (available_for_read (from_vec part)))) [
      | inl n ↦
          (let (r'', p, q, o) =
              read_from-Polled r' (from_vec part) room h.1 v (omega (arith, k, h.0)) in
            (
              r'',
              p,
              rw (w, n) q,
              record {
                valid = o.valid;
                in_order = o.in_order ∙ ap (λ (xs : List ℕ). xs ++ concat rest) c;
                at_most = omega (arith, o.at_most, k);
                exact = λ m. omega (arith, o.exact m, k);
                left = o.left;
              },
            ))
      | inr n ↦
          (let none_left : length (contents (from_vec part)) ≡ 0 =
              ground (arith, n, available_for_read-contents v) in
            let empty : part ≡ [] = no_bytes part (rw c at none_left) in
            (
              r',
              ready [],
              rw (w, n) refl,
              record {
                valid = record { buffered_valid = rw e tt; parts = h.1 };
                in_order = rw (e, empty) refl;
                at_most = rw (e, empty) (omega arith);
                exact = λ m. rw (e, empty) (omega arith);
                left = λ m. rw e (omega (arith, m));
              },
            ))
    ]
