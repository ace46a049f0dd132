-- ===== src/H2/Flow.antt =====
-- The flow control window of a connection: `update_global_window` and `distribute_window` of
-- src/http2/mod.rs, and `give_from_global_window` of src/http2/stream.rs. The streams are the
-- parameters: `streams` says whether a stream has a handle, and `sent` whether the channel to its
-- task, which tokio provides, takes a message.
pub mod Share
pub mod Bounds
use qhttp.Base.{
  ℕ, zero, suc, ◌+◌, Bool, true, false, not, List, [], ◌∷◌, ◌++◌, Option, none, some, ok, err,
  panic, ◌>>=◌, ◌>>◌, refuse_if, or_err, if◌then◌else◌, length,
}
use qhttp.Base.Int.{ℤ, pos, negsuc, ◌-ℤ◌, leb_ℤ, ltb_ℤ, checked_add}
use qhttp.H2.Error.{ErrorCode, H2Error, H2Result}

-- `requests` is the source's `pending_window_req`: the id of a stream and the amount it waits for.
pub record Windows : Type 0 where
  pub global_window : ℤ
  pub requests : List (ℕ × ℤ)

unfoldable pub update_global_window : ℤ → ℤ → H2Result ℤ
update_global_window global_window amount =
    or_err (checked_add global_window amount) (H2Error.connection ErrorCode.internal_error)

-- A round of the loop of `distribute_window`: it breaks, or goes on after some gifts.
pub data Round : Type 0 where
  done : Round
  again : List (ℕ × ℤ) → Windows → Round

module _ (streams sent : ℕ → Bool) where
  unfoldable pub give_from_global_window : ℕ → H2Result (Unit {0})
  give_from_global_window id =
      refuse_if (not (sent id)) (H2Error.connection ErrorCode.internal_error)

  -- The rest of a round, for the first request and the handle of its stream.
  unfoldable pub serve_request : ℤ → ℕ → ℤ → List (ℕ × ℤ) → H2Result Round
  serve_request global_window id wanted rest = do
    let whole = leb_ℤ wanted global_window
    let amount = if whole then wanted else global_window
    let remaining = if whole then pos 0 else wanted -ℤ global_window
    give_from_global_window id
    left ← update_global_window global_window (pos 0 -ℤ amount)
    ok (
        again ((id, amount) ∷ []) (record {
          global_window = left;
          requests = if ltb_ℤ (pos 0) remaining then (id, remaining) ∷ rest else rest;
        }))

  unfoldable pub window_round : Windows → H2Result Round
  window_round w = if leb_ℤ w.global_window (pos 0) then ok done else first_request w.requests
    where
      first_request : List (ℕ × ℤ) → H2Result Round
      first_request [] = ok done
      first_request ((id, wanted) ∷ rest) =
          if leb_ℤ wanted (pos 0)
          then ok (again [] (record w { requests = rest }))
          else if streams id
          then serve_request w.global_window id wanted rest
          else ok (again [] (record w { requests = rest }))

  -- The loop; `fuel` bounds its rounds. The gifts are the messages sent, in their order.
  unfoldable pub distribute_from : (fuel : ℕ) → Windows → H2Result (Windows × List (ℕ × ℤ))
  distribute_from zero w = panic
  distribute_from (suc fuel) w = window_round w >>= elim [
    | done ↦ ok (w, [])
    | again gifts w' ↦ distribute_from fuel w' >>= λ r. ok (r.0, gifts ++ r.1)
  ]

  unfoldable pub distribute_window : Windows → H2Result (Windows × List (ℕ × ℤ))
  distribute_window w = distribute_from (suc (length w.requests)) w
