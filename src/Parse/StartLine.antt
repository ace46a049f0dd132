-- ===== src/Parse/StartLine.antt =====
-- parse.rs: the start line of a request. The types of methods and URIs and the two functions that
-- read them are the `http` crate's, and parameters here.
pub mod RoundTrip
pub mod Safety
use qhttp.Base.{
  ℕ, suc, ◌+◌, Bool, true, false, List, [], ◌∷◌, Option, none, some, ok, err, ◌>>=◌, ◌>>◌,
  refuse_if, or_panic, or_err, leb, ◌==◌, ◌&&◌, if◌then◌else◌, sub_usize, length, drop, slice,
  IoResult, IoError, same_bytes,
}
use qhttp.Parse.Scan.{find_next_sp}

pub data Version : Type 0 where
  http_10 http_11 http_2 : Version

abbrev pub http1 : List ℕ
http1 = 72 ∷ 84 ∷ 84 ∷ 80 ∷ 47 ∷ 49 ∷ 46 ∷ 48 ∷ []

abbrev pub http1_1 : List ℕ
http1_1 = 72 ∷ 84 ∷ 84 ∷ 80 ∷ 47 ∷ 49 ∷ 46 ∷ 49 ∷ []

abbrev pub http2 : List ℕ
http2 = 72 ∷ 84 ∷ 84 ∷ 80 ∷ 47 ∷ 50 ∷ 46 ∷ 48 ∷ []

-- The version of a start line; an unknown one counts as HTTP/1.1.
unfoldable pub version_of : List ℕ → Version
version_of bytes =
    if same_bytes bytes http1
    then Version.http_10
    else if same_bytes bytes http1_1
    then Version.http_11
    else if same_bytes bytes http2
    then Version.http_2
    else Version.http_11

module _ {Method Uri : Type 0} (method_from_bytes : List ℕ → Option Method)
    (uri_try_from : List ℕ → Option Uri) where
  -- What follows the method: the URI from `start` on and the version.
  unfoldable pub parse_target : Method → List ℕ → ℕ → IoResult (Method × Uri × Version)
  parse_target method buf start = do
    found ← find_next_sp (drop start buf)
    idx ← or_err found IoError.invalid_data
    refuse_if (leb (length buf) (start + idx + 8)) IoError.invalid_data
    target ← or_panic (slice buf start (start + idx))
    uri ← or_err (uri_try_from target) IoError.invalid_data
    version ← or_panic (slice buf (start + idx + 1) (sub_usize (length buf) 2))
    ok (method, uri, version_of version)

  unfoldable pub parse_start_line2 : List ℕ → IoResult (Method × Uri × Version)
  parse_start_line2 [] = err IoError.invalid_data
  parse_start_line2 (b ∷ rest) = do
    found ← find_next_sp (b ∷ rest)
    end ← or_err found IoError.invalid_data
    refuse_if (leb (length (b ∷ rest)) (end + 1)) IoError.invalid_data
    name ← or_panic (slice (b ∷ rest) 0 end)
    method ← or_err (method_from_bytes name) IoError.invalid_data
    parse_target method (b ∷ rest) (end + 1)
