-- ===== src/H2/Connection/ReadRequest.antt =====
-- `read_request` and `add_header_line` of src/http2/mod.rs: the request of a decoded header block.
pub mod Order
use qhttp.Base.{
  same_bytes, ℕ, Bool, true, false, not, ◌&&◌, ◌||◌, List, [], ◌∷◌, ◌++◌, Option, none, some, ok,
  err, ◌==◌, if◌then◌else◌, refuse_if, or_err, ◌>>=◌, ◌>>◌, panic,
}
use qhttp.H2.Error.{ErrorCode, H2Error, H2Result}
use qhttp.H2.Connection.{Request, Connection, ConnResult, Surroundings, at}
use qhttp.Buffer.{reset, as_ref}

abbrev pub Headers : Type 0
Headers = List (List ℕ × List ℕ)

abbrev pub stream_error : H2Error
stream_error = H2Error.stream ErrorCode.protocol_error

-- `key.starts_with(b":")`
abbrev pub is_pseudo : List ℕ → Bool
is_pseudo [] = false
is_pseudo (b ∷ bs) = b == 58

-- `:method`, `:scheme`, `:path`, `:authority` and `CONNECT`, as bytes.
abbrev pub method_key : List ℕ
method_key = 58 ∷ 109 ∷ 101 ∷ 116 ∷ 104 ∷ 111 ∷ 100 ∷ []

abbrev pub scheme_key : List ℕ
scheme_key = 58 ∷ 115 ∷ 99 ∷ 104 ∷ 101 ∷ 109 ∷ 101 ∷ []

abbrev pub path_key : List ℕ
path_key = 58 ∷ 112 ∷ 97 ∷ 116 ∷ 104 ∷ []

abbrev pub authority_key : List ℕ
authority_key = 58 ∷ 97 ∷ 117 ∷ 116 ∷ 104 ∷ 111 ∷ 114 ∷ 105 ∷ 116 ∷ 121 ∷ []

abbrev pub connect : List ℕ
connect = 67 ∷ 79 ∷ 78 ∷ 78 ∷ 69 ∷ 67 ∷ 84 ∷ []

-- The flags `got_…` of the loop over the pseudo headers, and the request so far.
pub record Building : Type 0 where
  pub got_method : Bool
  pub got_scheme : Bool
  pub got_path : Bool
  pub got_authority : Bool
  pub request : Request

-- A GET request without URI, the default of the http crate.
abbrev pub empty : Building
empty = record {
  got_method = false;
  got_scheme = false;
  got_path = false;
  got_authority = false;
  request = record { method = 71 ∷ 69 ∷ 84 ∷ []; uri = none; headers = [] };
}

-- The test at the first regular header.
unfoldable pub check_pseudo : Building → H2Result (Unit {0})
check_pseudo b = do
  refuse_if (not b.got_method) stream_error
  if same_bytes b.request.method connect
      then refuse_if (b.got_scheme || b.got_path || not b.got_authority) stream_error
      else refuse_if (not b.got_scheme || not b.got_path) stream_error

module _ (out : Surroundings) where
  unfoldable pub add_header_line : Request → List ℕ → List ℕ → H2Result Request
  add_header_line req key value = do
    name ← or_err (out.header_name key) stream_error
    refuse_if (not (out.valid_value value)) stream_error
    ok (record req { headers = req.headers ++ ((name, value) ∷ []) })

  -- The `match &key[..]` of the first loop.
  unfoldable pub pseudo_header : Building → List ℕ → List ℕ → H2Result Building
  pseudo_header b key value =
      if same_bytes key method_key
      then refuse_if b.got_method stream_error
        >> refuse_if (not (out.valid_method value)) stream_error
        >> ok (record b { request = record b.request { method = value }; got_method = true })
      else if same_bytes key scheme_key
      then refuse_if b.got_scheme stream_error >> ok (record b { got_scheme = true })
      else if same_bytes key path_key
      then refuse_if b.got_path stream_error
        >> refuse_if (not (out.valid_uri value)) stream_error
        >> ok (record b { request = record b.request { uri = some value }; got_path = true })
      else if same_bytes key authority_key
      then refuse_if b.got_authority stream_error >> ok (record b { got_authority = true })
      else err stream_error

  -- The second loop.
  unfoldable pub read_regular : Request → Headers → H2Result Request
  read_regular req [] = ok req
  read_regular req ((key, value) ∷ rest) = do
    refuse_if (is_pseudo key) stream_error
    req' ← add_header_line req key value
    read_regular req' rest

  -- Both loops, which share the iterator: the second goes on where the first breaks.
  unfoldable pub read_headers : Building → Headers → H2Result Request
  read_headers b [] = ok b.request
  read_headers b ((key, value) ∷ rest) =
      if is_pseudo key
      then (pseudo_header b key value >>= λ b'. read_headers b' rest)
      else ((check_pseudo b >> add_header_line b.request key value) >>= λ req.
          read_regular req rest)

  -- `read_request`: the request, or the error that the caller takes to
  -- `handle_possible_stream_error`; the buffer is not reset when the block cannot be decoded.
  unfoldable pub read_request : Connection → ConnResult (Connection × H2Result Request)
  read_request c = do
    block ← block_of c
    let next : Connection = record c { decoded = c.decoded ++ (block ∷ []) }
    elim (out.decode c.decoded block) [
      | none ↦ ok (next, err (H2Error.connection ErrorCode.compresssion_error))
      | some headers ↦
          ok (record next { header_buffer = reset c.header_buffer }, read_headers empty headers)
    ]
    where
      block_of : Connection → ConnResult (List ℕ)
      block_of c = elim (as_ref c.header_buffer) [
        | ok bytes ↦ ok bytes
        | err e ↦ at c (err stream_error)
        | panic ↦ at c panic
      ]
