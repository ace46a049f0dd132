-- ===== src/H2/Connection/Answers.antt =====
-- `write_response` of src/http2/mod.rs: the header block of a response, as one HEADERS frame and
-- the CONTINUATION frames that it needs.
pub mod Fragments
use qhttp.Base.{
  ℕ, zero, suc, Bool, true, false, List, [], ◌∷◌, ◌++◌, Option, none, some, ok, panic, ltb,
  if◌then◌else◌, length, take, drop, ◌>>=◌,
}
use qhttp.H2.Frame.{Frame}
use qhttp.H2.Frame.Headers
use qhttp.H2.Frame.Continuation
use qhttp.H2.Connection.{Connection, ConnResult, Surroundings, write_frame}

-- The status as its three digits, and the headers in the order of the http crate's map.
pub record Response : Type 0 where
  pub status : List ℕ
  pub headers : List (List ℕ × List ℕ)

abbrev pub max_fragment : ℕ
max_fragment = 16_384

-- `:status`
abbrev pub status_key : List ℕ
status_key = 58 ∷ 115 ∷ 116 ∷ 97 ∷ 116 ∷ 117 ∷ 115 ∷ []

module _ (out : Surroundings) where
  -- The frame of one round of the loop.
  abbrev pub fragment_frame : (first : Bool) → ℕ → Bool → Bool → List ℕ → Frame
  fragment_frame true stream end_stream end_headers fragment = Headers.into_frame out.lib (record {
    stream = stream;
    end_stream = end_stream;
    end_headers = end_headers;
    priority = none;
    fragment = fragment;
  })
  fragment_frame false stream end_stream end_headers fragment =
      Continuation.into_frame out.lib
        (record { stream = stream; end_headers = end_headers; fragment = fragment })

  -- The loop; each round but the last takes 16384 bytes, so that the block's length bounds them.
  unfoldable pub write_fragments :
      (fuel : ℕ) → (first : Bool) → Connection → ℕ → Bool → List ℕ → ConnResult Connection
  write_fragments zero first c stream end_stream block = panic
  write_fragments (suc fuel) first c stream end_stream block =
      if ltb max_fragment (length block)
      then (write_frame out c
            (fragment_frame first stream end_stream false (take max_fragment block))
          >>= λ c'. write_fragments fuel false c' stream end_stream (drop max_fragment block))
      else write_frame out c (fragment_frame first stream end_stream true block)

  unfoldable pub write_response : Connection → Response → ℕ → Bool → ConnResult Connection
  write_response c resp stream end_stream =
      let headers = (status_key, resp.status) ∷ resp.headers in
      let block = out.encode c.encoded headers in
      let c' : Connection = record c { encoded = c.encoded ++ (headers ∷ []) } in
      write_fragments (suc (length block)) true c' stream end_stream block
