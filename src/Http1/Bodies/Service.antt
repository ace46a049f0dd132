-- ===== src/Http1/Bodies/Service.antt =====
-- The service of a body's reader: `handle_background_read_req`.
use qhttp.Base.{
  ℕ, ◌-◌, ◌≡◌, ◌<◌, ◌⊎◌, inl, inr, refl, ap, subst, ◌∙◌, Bool-cases, true, false, List, ◌++◌,
  Option, none, ok, err, arith, ltb, length, IoError, if◌then◌else◌,
}
use qhttp.Buffer.{Buffer, available_for_write}
use qhttp.Buffer.Contents.{IsValid, contents, capacity, rotate_buffer_lem}
use qhttp.H2.Reader.Fill.{available_for_write-contents}
use qhttp.Http1.Writer.{Http, write_continue_inner}
use qhttp.Http1.Bodies.{Connection, ask_for_body, handle_background_read_req}
use qhttp.Http1.Writer.Safety.{write_continue_inner-Writes}
use qhttp.Http1.Bodies.Reads.{give_or_read_lem}
use qhttp.Http1.Bodies.Order.{ahead, IsStopped, IsReady, Fed}

module _ (fails : (written : List ℕ) → Option IoError) (http : Http) where
  open http use {Version}

  -- What asking for the body does to the connection.
  abbrev Asks : Version → Connection → Type 0
  Asks version c =
      ((c' : Connection) × (ask_for_body fails http version c ≡ ok c')
        × (c'.buffer ≡ c.buffer)
        × (c'.arrivals ≡ c.arrivals)
        × (c'.expects_continue ≡ false))
      ⊎ ((c.expects_continue ≡ true)
          × (e : IoError) × (write_continue_inner fails http version c.written ≡ err e)
          × (ask_for_body fails http version c ≡ err none))

  ask_for_body_lem : (version : Version) (c : Connection) → Asks version c
  unfolding ask_for_body
  ask_for_body_lem version c = elim (Bool-cases c.expects_continue) [
    | inl asked ↦ elim (write_continue_inner-Writes fails http version c.written) [
      | inl (written, q) ↦ inl (
        record c { written = written; expects_continue = false },
        rw (asked, q) refl,
        refl,
        refl,
        refl,
      )
      | inr (e, q) ↦ inr (asked, e, q, rw (asked, q) refl)
    ]
    | inr quiet ↦ inl (c, rw quiet refl, refl, refl, quiet)
  ]

  -- The connection serves a request for at most `amount` bytes, at least one, of a body's reader whose
  -- buffer has room for a byte. It first asks for the body, if it is to, and is then not to any more.
  -- Then the reader gets at least one byte and at most `amount` of those ahead, in their order, in a
  -- valid buffer of the same size, and the connection keeps the others. Else the connection ends: it
  -- could not ask for the body, or fewer than `amount` bytes are there and none arrive. There is no
  -- panic.
  pub handle_background_read_req-Fed :
      (version : Version) (c : Connection) (buffer : Buffer) (amount : ℕ)
      → IsReady c
      → IsValid buffer
      → 0 < amount
      → length (contents buffer) < capacity buffer
      → ((c₁ : Connection) × (c' : Connection) × (body : Buffer) × (handle_background_read_req fails
              http version c buffer amount
            ≡ ok (c', body))
          × (ask_for_body fails http version c ≡ ok c₁)
          × Fed c₁ buffer amount c' body
          × (ahead c₁ ≡ ahead c)
          × (c'.expects_continue ≡ false))
        ⊎ ((o : Option IoError) × (handle_background_read_req fails http version c buffer amount
              ≡ err o)
            × ((IsStopped c.arrivals × (length (contents c.buffer) < amount))
                ⊎ ((c.expects_continue ≡ true)
                    × (e : IoError) × (write_continue_inner fails http version c.written ≡ err e))))
  unfolding handle_background_read_req
  handle_background_read_req-Fed version c buffer amount h v positive some_room =
      let (body, q, v', same, front, room) = rotate_buffer_lem v in
      let limit : ℕ =
        if ltb (available_for_write body) amount then available_for_write body else amount in
      let free : available_for_write body ≡ capacity buffer - length (contents buffer) =
        available_for_write-contents v' ∙ rw (same, room) refl in
      elim (ask_for_body_lem version c) [
        | inr (asked, e, w, a) ↦ inr (none, rw (q, a) refl, inr (asked, e, w))
        | inl (c₁, a, b, r, x) ↦
            let h₁ : IsReady c₁ = record {
              valid = rw b h.valid;
              some_room = rw b h.some_room;
              fed = rw r h.fed;
            } in
            elim (give_or_read_lem c₁ body limit h₁ v' (ground (arith, free, positive, some_room))
              (rw (same, room) (ground (arith, free)))) [
                | inr (stopped, less, (o, e)) ↦ inr (
                  o,
                  rw (q, a) e,
                  inl (
                    subst IsStopped r stopped,
                    ground (arith, less, ap (λ (x : Buffer). length (contents x)) b),
                  ),
                )
                | inl (c', body', e, f) ↦ inl (
                  c₁,
                  c',
                  body',
                  rw (q, a) e,
                  a,
                  record {
                    prepared = f.prepared;
                    valid = f.valid;
                    room = f.room ∙ room;
                    in_order = f.in_order ∙ ap (λ (xs : List ℕ). xs ++ ahead c₁) same;
                    at_most = ground (arith, f.at_most, ap length same);
                    at_least = omega (arith, f.at_least, ap length same);
                    written = f.written;
                    asked = f.asked;
                  },
                  rw (b, r) refl,
                  f.asked ∙ x,
                )
              ]
      ]
