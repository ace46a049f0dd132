-- ===== src/H2/Stream/Termination.antt =====
-- Sending a chunk ends: the fuel of the loop in src/http2/stream.rs is enough.
use qhttp.Base.{
  ℕ, zero, suc, ◌+◌, ◌≡◌, ◌≢◌, ◌<◌, List, [], ◌∷◌, ok, panic, arith, >>=-panic, >>=-ok, inl, inr,
  length, length-drop,
}
use qhttp.Base.Int.{ℤ, pos, negsuc}
use qhttp.H2.Settings.{to_i32}
use qhttp.H2.Crates.{Crates}
use qhttp.H2.Stream.{Stream, Input, at, tell, take_body, handle_req, main_select}
use qhttp.H2.Stream.Body.{
  Round, part_sent, idle, ask_for_window, part_size, send_part, use_window, send_round, send_chunk,
  send_next, stream_error,
}

main_select-ne-panic : (s : Stream) (i : Input) → main_select s i ≢ panic
unfolding main_select handle_req take_body tell
main_select-ne-panic s i h = ground arith

module _ (lib : Crates) where
  send_round-ne-panic :
      (s : Stream) (needed : ℤ) (bytes : List ℕ) → send_round lib s needed bytes ≢ panic
  unfolding send_round ask_for_window use_window send_part tell
  send_round-ne-panic s needed bytes h = ground arith

  use_window-shorter :
      (s : Stream) (needed : ℤ) (b : ℕ) (bytes : List ℕ) (available : ℤ) {s' : Stream} {needed' : ℤ}
      {rest : List ℕ}
      → use_window lib s needed (b ∷ bytes) available ≡ ok (part_sent s' needed' rest)
      → length rest < length (b ∷ bytes)
  unfolding use_window send_part tell
  use_window-shorter s needed b bytes (pos zero) h = cc
  use_window-shorter s needed b bytes (pos (suc n)) h =
      ground (arith, length-drop (part_size (suc n) (b ∷ bytes)) (b ∷ bytes))
  use_window-shorter s needed b bytes (negsuc n) h = cc

  send_round-shorter :
      (s : Stream) (needed : ℤ) (b : ℕ) (bytes : List ℕ) {s' : Stream} {needed' : ℤ} {rest : List ℕ}
      → send_round lib s needed (b ∷ bytes) ≡ ok (part_sent s' needed' rest)
      → length rest < length (b ∷ bytes)
  unfolding send_round
  send_round-shorter s needed b bytes h =
      let (r, q, q') = >>=-ok (ask_for_window s needed) _ h in
      use_window-shorter r.0 r.1 b bytes (r.0).available q'

  at_round-ne-panic :
      (fuel : ℕ)
      → ((s : Stream) (needed : ℤ) (bytes : List ℕ) (inputs : List Input)
          → length bytes + length inputs < fuel
          → send_chunk lib fuel s needed bytes inputs ≢ panic)
      → (s : Stream) (needed : ℤ) (b : ℕ) (bytes : List ℕ) (inputs : List Input)
      → length (b ∷ bytes) + length inputs < suc fuel
      → send_chunk lib (suc fuel) s needed (b ∷ bytes) inputs ≡ panic
      → (round : Round) → send_round lib s needed (b ∷ bytes) ≢ ok round
  unfolding send_chunk
  at_round-ne-panic fuel ih s needed b bytes inputs f h (part_sent s' needed' rest) q =
      ih s' needed' rest inputs (omega (arith, f, send_round-shorter s needed b bytes q))
        (rw q at h)
  at_round-ne-panic fuel ih s needed b bytes [] f h (idle s' needed') q = cc
  at_round-ne-panic fuel ih s needed b bytes (i ∷ inputs) f h (idle s' needed') q =
      elim (>>=-panic (main_select s' i) _ (rw q at h)) [
        | inl p ↦ main_select-ne-panic s' i p
        | inr (s₁, p, k) ↦ ih s₁ needed' (b ∷ bytes) inputs (omega (arith, f)) k
      ]

  send_chunk-ne-panic :
      (fuel : ℕ) (s : Stream) (needed : ℤ) (bytes : List ℕ) (inputs : List Input)
      → length bytes + length inputs < fuel
      → send_chunk lib fuel s needed bytes inputs ≢ panic
  unfolding send_chunk
  send_chunk-ne-panic fuel s needed [] inputs f h = cc
  send_chunk-ne-panic zero s needed (b ∷ bytes) inputs f h = omega (arith, f)
  send_chunk-ne-panic (suc fuel) s needed (b ∷ bytes) inputs f h =
      elim (>>=-panic (send_round lib s needed (b ∷ bytes)) _ h) [
        | inl p ↦ send_round-ne-panic s needed (b ∷ bytes) p
        | inr (round, p, k) ↦
            at_round-ne-panic fuel (send_chunk-ne-panic fuel) s needed b bytes inputs f h round p
      ]

  -- Sending what was read of a body ends, whatever the inputs: with the chunk sent, with the stream
  -- waiting for an input, or with an error.
  pub send_next-ne-panic :
      (s : Stream) (bytes : List ℕ) (inputs : List Input) → send_next lib s bytes inputs ≢ panic
  unfolding send_next tell
  send_next-ne-panic s [] inputs h = ground arith
  send_next-ne-panic s (b ∷ bytes) inputs h =
      elim (>>=-panic (at s (to_i32 (length (b ∷ bytes)) stream_error)) _ h) [
        | inl p ↦ ground arith
        | inr (n, p, k) ↦ send_chunk-ne-panic _ s (pos n) (b ∷ bytes) inputs (omega arith) k
      ]
