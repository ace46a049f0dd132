-- ===== src/Http1/Writer.antt =====
-- lib.rs: what a connection writes: the line that asks for a body, and the head of a response. The
-- versions and statuses are the http crate's, whose texts are a parameter; so is the writer, of which
-- is known at which errors it fails, behind the bytes that were written. A write that takes too long
-- is the error `timed_out`.
pub mod Safety
use qhttp.Base.{
  ℕ, List, [], ◌∷◌, ◌++◌, Option, none, some, Result, ok, err, ◌>>=◌, IoResult, IoError,
}
use qhttp.Parse.Chars.{cr, nl, sp}

pub record Http : Type 1 where
  pub Version : Type 0
  pub Status : Type 0
  pub version_text : Version → List ℕ
  pub status_text : Status → List ℕ
  pub canonical_reason : Status → Option (List ℕ)
  pub continue : Status

abbrev pub crnl : List ℕ
crnl = cr ∷ nl ∷ []

-- ": "
abbrev pub colon : List ℕ
colon = b':' ∷ b' ' ∷ []

-- The bytes that a response was given before its body.
pub record Head (http : Http) : Type 0 where
  pub version : Http.Version http
  pub status : Http.Status http
  pub headers : List (List ℕ × List ℕ)

module _ (fails : (written : List ℕ) → Option IoError) where
  -- `writer.write_all`, behind what was written.
  unfoldable pub write_all : List ℕ → (written : List ℕ) → IoResult (List ℕ)
  write_all bytes written = elim (fails written) [ some e ↦ err e | none ↦ ok (written ++ bytes) ]

  -- `writer.flush`
  unfoldable pub flush : (written : List ℕ) → IoResult (List ℕ)
  flush written = elim (fails written) [ some e ↦ err e | none ↦ ok written ]

  module _ (http : Http) where
    open http use {Version, Status, version_text, status_text, canonical_reason, continue}

    -- The reason of a status, if it has one.
    abbrev pub write_reason : Option (List ℕ) → (written : List ℕ) → IoResult (List ℕ)
    write_reason none written = ok written
    write_reason (some reason) written = write_all reason written

    unfoldable pub write_status_line : Version → Status → (written : List ℕ) → IoResult (List ℕ)
    write_status_line version status written =
        write_all (version_text version) written
        >>= write_all (sp ∷ [])
        >>= write_all (status_text status)
        >>= write_all (sp ∷ [])
        >>= write_reason (canonical_reason status)
        >>= write_all crnl

    unfoldable pub write_continue_inner : Version → (written : List ℕ) → IoResult (List ℕ)
    write_continue_inner version written =
        write_status_line version continue written >>= write_all crnl >>= flush

    unfoldable pub write_header_lines :
        List (List ℕ × List ℕ) → (written : List ℕ) → IoResult (List ℕ)
    write_header_lines [] written = ok written
    write_header_lines ((key, value) ∷ rest) written =
        write_all key written
        >>= write_all colon
        >>= write_all value
        >>= write_all crnl
        >>= write_header_lines rest

    unfoldable pub write_headers : Head http → (written : List ℕ) → IoResult (List ℕ)
    write_headers resp written =
        write_status_line resp.version resp.status written
        >>= write_header_lines resp.headers
        >>= write_all crnl
        >>= flush
