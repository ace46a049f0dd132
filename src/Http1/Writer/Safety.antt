-- ===== src/Http1/Writer/Safety.antt =====
-- No write panics.
use qhttp.Base.{
  ℕ, ◌≡◌, ◌⊎◌, inl, inr, refl, List, [], ◌∷◌, ◌++◌, Option, none, some, ok, err, ◌>>=◌, IoError,
  IoResult,
}
use qhttp.Parse.Chars.{sp}
use qhttp.Http1.Writer.{
  Http, crnl, write_all, flush, write_reason, write_status_line, write_continue_inner,
}

-- A write succeeds or fails; it does not panic.
abbrev pub Writes : IoResult (List ℕ) → Type 0
Writes result = ((written : List ℕ) × (result ≡ ok written)) ⊎ ((e : IoError) × (result ≡ err e))

Writes-then :
    (m : IoResult (List ℕ)) (f : List ℕ → IoResult (List ℕ))
    → Writes m
    → ((written : List ℕ) → Writes (f written))
    → Writes (m >>= f)
Writes-then m f (inl (written, q)) h = rw q (h written)
Writes-then m f (inr (e, q)) h = inr (e, rw q refl)

module _ (fails : (written : List ℕ) → Option IoError) (http : Http) where
  open http use {Version, version_text, status_text, canonical_reason, continue}

  write_all-Writes : (text written : List ℕ) → Writes (write_all fails text written)
  unfolding write_all
  write_all-Writes text written =
      elim (fails written)
        as (λ (o : Option IoError).
          Writes (elim o [ some e ↦ err e | none ↦ ok (written ++ text) ])) [
            | some e ↦ inr (e, refl)
            | none ↦ inl (written ++ text, refl)
          ]

  flush-Writes : (written : List ℕ) → Writes (flush fails written)
  unfolding flush
  flush-Writes written =
      elim (fails written)
        as (λ (o : Option IoError). Writes (elim o [ some e ↦ err e | none ↦ ok written ])) [
          | some e ↦ inr (e, refl)
          | none ↦ inl (written, refl)
        ]

  write_reason-Writes :
      (reason : Option (List ℕ)) (written : List ℕ)
      → Writes (write_reason fails http reason written)
  write_reason-Writes none written = inl (written, refl)
  write_reason-Writes (some reason) written = write_all-Writes reason written

  -- One more piece is written.
  then_write :
      (m : IoResult (List ℕ)) (piece : List ℕ) → Writes m → Writes (m >>= write_all fails piece)
  then_write m piece h = Writes-then m (write_all fails piece) h (write_all-Writes piece)

  pub write_continue_inner-Writes :
      (version : Version) (written : List ℕ)
      → Writes (write_continue_inner fails http version written)
  unfolding write_continue_inner write_status_line
  write_continue_inner-Writes version written =
      Writes-then _ (flush fails)
        (then_write _ crnl (
          then_write _ crnl (
            Writes-then _ (write_reason fails http (canonical_reason continue))
              (then_write _ (sp ∷ []) (
                then_write _ (status_text continue)
                  (then_write _ (sp ∷ []) (write_all-Writes (version_text version) written))))
              (write_reason-Writes (canonical_reason continue)))))
        flush-Writes
