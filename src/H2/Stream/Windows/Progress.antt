-- ===== src/H2/Stream/Windows/Progress.antt =====
-- A chunk of a body, from its first byte to its last.
use qhttp.Base.{
  ℕ, zero, suc, ◌+◌, ◌≡◌, refl, sym, ap, ◌∙◌, true, List, [], ◌∷◌, ◌++◌, append_assoc, append-nil,
  ok, arith, >>=-ok, ◌>>=◌, length, length-append, All,
}
use qhttp.Base.Int.{ℤ, pos}
use qhttp.H2.Crates.{Crates}
use qhttp.H2.Frame.Data
use qhttp.H2.Settings.{to_i32}
use qhttp.H2.Stream.{Stream, Input, main_select, at, tell}
use qhttp.H2.Stream.Body.{
  Round, part_sent, idle, send_round, Sending, all_sent, waiting, send_chunk, send_next,
  stream_error, data_frame,
}
use qhttp.H2.Stream.Windows.{
  payloads, grants, grant, IsGrant, account, payloads-append, main_select-grant, Part,
  send_round-Part, send_round-idle,
}

-- What is left of a chunk, and of the inputs.
abbrev pub stream_of : Sending → Stream
stream_of (all_sent s rest) = s
stream_of (waiting s needed bytes) = s

abbrev pub unsent : Sending → List ℕ
unsent (all_sent s rest) = []
unsent (waiting s needed bytes) = bytes

abbrev pub ungranted : Sending → ℕ
ungranted (all_sent s rest) = grants rest
ungranted (waiting s needed bytes) = 0

-- From the window `a` and the payloads `before`, with the inputs' grants `g`.
pub record Balance (a g : ℕ) (before bytes : List ℕ) (r : Sending) : Type 0 where
  pub left : ℕ
  pub is_left : (stream_of r).available ≡ pos left
  pub sent : List ℕ
  pub in_order : payloads (stream_of r).sent ≡ before ++ sent
  pub whole : sent ++ unsent r ≡ bytes
  pub balance : left + length sent + ungranted r ≡ a + g

module _ (lib : Crates) where
  abbrev Balanced : ℕ → Type 0
  Balanced fuel =
      (s : Stream) (needed : ℤ) (bytes : List ℕ) (inputs : List Input) (a : ℕ) (r : Sending)
      → send_chunk lib fuel s needed bytes inputs ≡ ok r
      → s.available ≡ pos a
      → All IsGrant inputs
      → Balance a (grants inputs) (payloads s.sent) bytes r

  after-Part :
      (fuel : ℕ)
      → Balanced fuel
      → (s s' : Stream) (needed : ℤ) (bytes rest : List ℕ) (inputs : List Input) (a : ℕ)
        (r : Sending)
      → Part s a bytes rest s'
      → send_chunk lib fuel s' needed rest inputs ≡ ok r
      → All IsGrant inputs
      → Balance a (grants inputs) (payloads s.sent) bytes r
  after-Part fuel ih s s' needed bytes rest inputs a r o h g =
      let b = ih s' needed rest inputs o.left r h (ap (λ (k : ℤ × List ℕ). k.0) o.after) g in
      record {
        left = b.left;
        is_left = b.is_left;
        sent = o.part ++ b.sent;
        in_order =
            b.in_order
            ∙ ap (λ (k : ℤ × List ℕ). k.1 ++ b.sent) o.after
            ∙ append_assoc (payloads s.sent) o.part b.sent;
        whole =
            append_assoc o.part b.sent (unsent r)
            ∙ ap (λ (k : List ℕ). o.part ++ k) b.whole
            ∙ o.whole;
        balance = omega (arith, b.balance, o.balance, length-append o.part b.sent);
      }

  after_idle :
      (fuel : ℕ)
      → Balanced fuel
      → (s s' : Stream) (needed : ℤ) (bytes : List ℕ) (i : Input) (inputs : List Input) (a : ℕ)
        (r : Sending)
      → account s' ≡ account s
      → (main_select s' i >>= λ s''. send_chunk lib fuel s'' needed bytes inputs) ≡ ok r
      → s.available ≡ pos a
      → All IsGrant (i ∷ inputs)
      → Balance a (grants (i ∷ inputs)) (payloads s.sent) bytes r
  after_idle fuel ih s s' needed bytes i inputs a r e h p g =
      let (s₁, q, q') = >>=-ok (main_select s' i) _ h in
      let k = main_select-grant s' i a q (ap (λ (k : ℤ × List ℕ). k.0) e ∙ p) g.0 in
      let b = ih s₁ needed bytes inputs (a + grant i) r q' (ap (λ (k : ℤ × List ℕ). k.0) k) g.1 in
      record {
        left = b.left;
        is_left = b.is_left;
        sent = b.sent;
        in_order =
            b.in_order
            ∙ ap (λ (k : ℤ × List ℕ). k.1 ++ b.sent) k
            ∙ ap (λ (k : ℤ × List ℕ). k.1 ++ b.sent) e;
        whole = b.whole;
        balance = omega (arith, b.balance);
      }

  stopped :
      (s s' : Stream) (needed : ℤ) (bytes : List ℕ) (a : ℕ)
      → account s' ≡ account s
      → s.available ≡ pos a
      → Balance a 0 (payloads s.sent) bytes (waiting s' needed bytes)
  stopped s s' needed bytes a e p = record {
    left = a;
    is_left = ap (λ (k : ℤ × List ℕ). k.0) e ∙ p;
    sent = [];
    in_order = ap (λ (k : ℤ × List ℕ). k.1) e ∙ sym (append-nil (payloads s.sent));
    whole = refl;
    balance = omega arith;
  }

  at_round :
      (fuel : ℕ)
      → Balanced fuel
      → (s : Stream) (needed : ℤ) (b : ℕ) (bytes : List ℕ) (inputs : List Input) (a : ℕ)
        (r : Sending)
      → send_chunk lib (suc fuel) s needed (b ∷ bytes) inputs ≡ ok r
      → s.available ≡ pos a
      → All IsGrant inputs
      → (round : Round) → send_round lib s needed (b ∷ bytes) ≡ ok round
      → Balance a (grants inputs) (payloads s.sent) (b ∷ bytes) r
  unfolding send_chunk
  at_round fuel ih s needed b bytes inputs a r h p g (part_sent s' needed' rest) q =
      after-Part fuel ih s s' needed' (b ∷ bytes) rest inputs a r
        (send_round-Part lib s needed b bytes a q p) (rw q at h) g
  at_round fuel ih s needed b bytes [] a r h p g (idle s' needed') q =
      let e : waiting s' needed' (b ∷ bytes) ≡ r = grind arith in
      rw (sym e) (stopped s s' needed' (b ∷ bytes) a (send_round-idle lib s needed (b ∷ bytes) q) p)
  at_round fuel ih s needed b bytes (i ∷ inputs) a r h p g (idle s' needed') q =
      after_idle fuel ih s s' needed' (b ∷ bytes) i inputs a r
        (send_round-idle lib s needed (b ∷ bytes) q) (rw q at h) p g

  send_chunk-Balance : (fuel : ℕ) → Balanced fuel
  unfolding send_chunk
  send_chunk-Balance fuel s needed [] inputs a r h p g =
      let e : all_sent s inputs ≡ r = grind arith in
      rw (sym e) (record {
        left = a;
        is_left = p;
        sent = [];
        in_order = sym (append-nil (payloads s.sent));
        whole = refl;
        balance = omega arith;
      })
  send_chunk-Balance zero s needed (b ∷ bytes) inputs a r h p g = cc
  send_chunk-Balance (suc fuel) s needed (b ∷ bytes) inputs a r h p g =
      let (round, q, q') = >>=-ok (send_round lib s needed (b ∷ bytes)) _ h in
      at_round fuel (send_chunk-Balance fuel) s needed b bytes inputs a r h p g round q

  -- What a stream sends of a chunk, or at the end of a body, that it has read: the bytes in their
  -- order, all of them or all but those that it still holds; and each byte is taken off the window
  -- that it had acquired or was granted meanwhile, so that the window it is left with is what it
  -- had and was granted, less the bytes sent.
  pub send_next-balance :
      (s : Stream) (bytes : List ℕ) (inputs : List Input) (a : ℕ) (r : Sending)
      → send_next lib s bytes inputs ≡ ok r
      → s.available ≡ pos a
      → All IsGrant inputs
      → (left : ℕ) × (sent : List ℕ) × ((stream_of r).available ≡ pos left)
        × (payloads (stream_of r).sent ≡ payloads s.sent ++ sent)
        × (sent ++ unsent r ≡ bytes)
        × (left + length sent + ungranted r ≡ a + grants inputs)
  unfolding send_next tell Data.into_frame
  send_next-balance s [] inputs a r h p g =
      let (s', q, q') = >>=-ok (tell s (data_frame lib s.id true [])) _ h in
      let e : all_sent s' inputs ≡ r = grind arith in
      rw (sym e) (
        a,
        [],
        ground arith,
        ground (arith, payloads-append s.sent (data_frame lib s.id true [])),
        refl,
        omega arith,
      )
  send_next-balance s (b ∷ bytes) inputs a r h p g =
      let (n, q, q') = >>=-ok (at s (to_i32 (length (b ∷ bytes)) stream_error)) _ h in
      let o =
        send_chunk-Balance (suc (length (b ∷ bytes) + length inputs)) s (pos n) (b ∷ bytes) inputs a
          r q' p g in
      (o.left, o.sent, o.is_left, o.in_order, o.whole, o.balance)
