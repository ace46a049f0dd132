-- ===== src/H2/Flow/Share.antt =====
-- The window is shared out in the order of the requests: each stream gets what it waits for, as far
-- as the window goes.
use qhttp.Base.{
  ℕ, zero, suc, ◌+◌, ◌-◌, ◌≤◌, ◌<◌, ◌^◌, ◌≡◌, refl, ◌⊎◌, inl, inr, Bool, true, List, [], ◌∷◌, ok,
  leb, if◌then◌else◌, arith, length, Bool-cases, leb→le,
}
use qhttp.Base.Int.{ℤ, pos, negsuc, pos_part, ◌-ℤ◌, ◌+ℤ◌, checked_add}
use qhttp.H2.Flow.{
  Windows, again, update_global_window, give_from_global_window, serve_request, window_round,
  distribute_from, distribute_window,
}

-- What is left of the window, who still waits, and the gifts.
pub record Shares : Type 0 where
  pub left : ℕ
  pub waiting : List (ℕ × ℤ)
  pub gifts : List (ℕ × ℤ)

module _ (streams : ℕ → Bool) where
  -- A stream without a handle and a request for nothing are passed over.
  abbrev pub share : ℕ → List (ℕ × ℤ) → Shares
  share zero requests = record { left = 0; waiting = requests; gifts = [] }
  share (suc g) [] = record { left = suc g; waiting = []; gifts = [] }
  share (suc g) ((id, negsuc n) ∷ rest) = share (suc g) rest
  share (suc g) ((id, pos zero) ∷ rest) = share (suc g) rest
  share (suc g) ((id, pos (suc n)) ∷ rest) =
      let passed_over = share (suc g) rest in
      let served = share (g - n) rest in
      if streams id
      then (if leb n g then record served { gifts = (id, pos (suc n)) ∷ served.gifts } else record {
        left = 0;
        waiting = (id, pos (n - g)) ∷ rest;
        gifts = (id, pos (suc g)) ∷ [];
      })
      else passed_over

abbrev pub result : Shares → Windows × List (ℕ × ℤ)
result s = (record { global_window = pos s.left; requests = s.waiting }, s.gifts)

module _ (streams sent : ℕ → Bool) where
  serve_request-whole :
      (g n id : ℕ) (rest : List (ℕ × ℤ))
      → sent id ≡ true
      → n ≤ g
      → suc g < 2 ^ 31
      → serve_request streams sent (pos (suc g)) id (pos (suc n)) rest
        ≡ ok (
            again
              ((id, pos (suc n)) ∷ [])
              (record { global_window = pos (g - n); requests = rest }))
  unfolding serve_request update_global_window give_from_global_window checked_add ◌+ℤ◌ ◌-ℤ◌
  serve_request-whole g n id rest alive h w = ground arith

  serve_request-part :
      (g n id : ℕ) (rest : List (ℕ × ℤ))
      → sent id ≡ true
      → g < n
      → suc g < 2 ^ 31
      → serve_request streams sent (pos (suc g)) id (pos (suc n)) rest
        ≡ ok (
            again
              ((id, pos (suc g)) ∷ [])
              (record { global_window = pos 0; requests = (id, pos (n - g)) ∷ rest }))
  unfolding serve_request update_global_window give_from_global_window checked_add ◌+ℤ◌ ◌-ℤ◌
  serve_request-part g n id rest alive h w = ground arith

  -- With no window left, the loop breaks at once.
  distribute_from-no_window :
      (fuel : ℕ) (requests : List (ℕ × ℤ))
      → 0 < fuel
      → distribute_from streams sent fuel (record { global_window = pos 0; requests = requests })
        ≡ ok (record { global_window = pos 0; requests = requests }, [])
  unfolding distribute_from window_round
  distribute_from-no_window zero requests h = absurd (omega arith)
  distribute_from-no_window (suc fuel) requests h = ground arith

  distribute_from-share :
      (fuel g : ℕ) (requests : List (ℕ × ℤ))
      → ((id : ℕ) → streams id ≡ true → sent id ≡ true)
      → length requests < fuel
      → g < 2 ^ 31
      → distribute_from streams sent fuel (record { global_window = pos g; requests = requests })
        ≡ ok (result (share streams g requests))
  unfolding distribute_from window_round
  distribute_from-share zero g requests alive h w = absurd (omega arith)
  distribute_from-share (suc fuel) zero requests alive h w = ground arith
  distribute_from-share (suc fuel) (suc g) [] alive h w = ground arith
  distribute_from-share (suc fuel) (suc g) ((id, negsuc n) ∷ rest) alive h w =
      ground (arith, distribute_from-share fuel (suc g) rest alive (omega arith) w)
  distribute_from-share (suc fuel) (suc g) ((id, pos zero) ∷ rest) alive h w =
      ground (arith, distribute_from-share fuel (suc g) rest alive (omega arith) w)
  distribute_from-share (suc fuel) (suc g) ((id, pos (suc n)) ∷ rest) alive h w =
      elim (Bool-cases (streams id)) [
        | inr s ↦
            rw (s)
              (ground (arith, s, distribute_from-share fuel (suc g) rest alive (omega arith) w))
        | inl s ↦ elim (Bool-cases (leb n g)) [
          | inl k ↦ ground (
            arith,
            serve_request-whole g n id rest (alive id s) (leb→le n g k) w,
            distribute_from-share fuel (g - n) rest alive (omega arith) (omega arith),
          )
          | inr k ↦ ground (
            arith,
            serve_request-part g n id rest (alive id s) (ground arith) w,
            distribute_from-no_window fuel ((id, pos (n - g)) ∷ rest) (omega arith),
          )
        ]
      ]

  -- From a window of zero or more, below 2^31, and if every stream with a handle takes its messages,
  -- the loop ends with the window shared out in the order of the requests.
  pub distribute_window-share :
      (g : ℕ) (requests : List (ℕ × ℤ))
      → ((id : ℕ) → streams id ≡ true → sent id ≡ true)
      → g < 2 ^ 31
      → distribute_window streams sent (record { global_window = pos g; requests = requests })
        ≡ ok (result (share streams g requests))
  unfolding distribute_window
  distribute_window-share g requests alive w =
      distribute_from-share (suc (length requests)) g requests alive (omega arith) w

-- The sum of gifts, which are never negative.
abbrev pub total : List (ℕ × ℤ) → ℕ
total [] = 0
total ((id, amount) ∷ gifts) = pos_part amount + total gifts

module _ (streams : ℕ → Bool) where
  share-total :
      (g : ℕ) (requests : List (ℕ × ℤ))
      → (share streams g requests).left + total (share streams g requests).gifts ≡ g
  share-total zero requests = omega arith
  share-total (suc g) [] = omega arith
  share-total (suc g) ((id, negsuc n) ∷ rest) = share-total (suc g) rest
  share-total (suc g) ((id, pos zero) ∷ rest) = share-total (suc g) rest
  share-total (suc g) ((id, pos (suc n)) ∷ rest) =
      ground (arith, share-total (suc g) rest, share-total (g - n) rest)

  share-waiting :
      (g : ℕ) (requests : List (ℕ × ℤ))
      → ((share streams g requests).left ≡ 0) ⊎ ((share streams g requests).waiting ≡ [])
  share-waiting zero requests = inl refl
  share-waiting (suc g) [] = inr refl
  share-waiting (suc g) ((id, negsuc n) ∷ rest) = share-waiting (suc g) rest
  share-waiting (suc g) ((id, pos zero) ∷ rest) = share-waiting (suc g) rest
  share-waiting (suc g) ((id, pos (suc n)) ∷ rest) =
      ground (arith, share-waiting (suc g) rest, share-waiting (g - n) rest)

-- From a window of zero or more, below 2^31, and if every stream with a handle takes its messages,
-- the loop ends without an error; what is left and what was given away add up to the window that
-- there was, and nothing is left while a request waits.
pub distribute_window-total :
    (streams sent : ℕ → Bool) (g : ℕ) (requests : List (ℕ × ℤ))
    → ((id : ℕ) → streams id ≡ true → sent id ≡ true)
    → g < 2 ^ 31
    → (left : ℕ) × (waiting gifts : List (ℕ × ℤ)) × (distribute_window streams sent
          (record { global_window = pos g; requests = requests })
        ≡ ok (record { global_window = pos left; requests = waiting }, gifts))
      × (left + total gifts ≡ g)
      × ((left ≡ 0) ⊎ (waiting ≡ []))
distribute_window-total streams sent g requests alive w =
    let s : Shares = share streams g requests in
    (
      s.left,
      s.waiting,
      s.gifts,
      distribute_window-share streams sent g requests alive w,
      share-total streams g requests,
      share-waiting streams g requests,
    )
