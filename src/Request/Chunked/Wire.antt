-- ===== src/Request/Chunked/Wire.antt =====
-- A chunked body on the wire, as `ChunkedWriter` sends it, and what a `ChunkedReader` holds of it.
use qhttp.Base.{
  ℕ, ◌+◌, ◌^◌, ◌≤◌, ◌<◌, ◌≡◌, refl, ap, ◌∙◌, true, List, [], ◌∷◌, ◌++◌, append_assoc, ok, arith,
  length, All,
}
use qhttp.Buffer.Contents.{IsValid, contents, capacity}
use qhttp.Parse.Chars.{cr, nl, is_hex}
use qhttp.Parse.Chunk.{parse_chunk_header}
use qhttp.Parse.Chunk.Header.{parse_chunk_header_header}
use qhttp.Response.{hex_digits}
use qhttp.Response.Chunks.{chunk}
use qhttp.Response.Digits.{hex_value-hex_digits, hex_digits-hex, length-hex_digits}
use qhttp.Request.Chunked.{
  ChunkedReader, ChunkedReaderStatus, waiting_for_chunk, reading_chunk, done,
}
use qhttp.Request.Chunked.Fill.{ahead}

abbrev pub crlf : List ℕ
crlf = cr ∷ nl ∷ []

-- The chunks, the last chunk and the empty line.
abbrev pub wire : List (List ℕ) → List ℕ
wire [] = b'0' ∷ cr ∷ nl ∷ cr ∷ nl ∷ []
wire (b ∷ bs) = chunk b ++ wire bs

abbrev pub concat : List (List ℕ) → List ℕ
concat [] = []
concat (b ∷ bs) = b ++ concat bs

abbrev pub IsChunk : List ℕ → Type 0
IsChunk b = (0 < length b) × (length b < 2 ^ 64)

-- The digits of the first header, the size that they give, and what is behind the header.
abbrev pub digits_of : List (List ℕ) → List ℕ
digits_of [] = b'0' ∷ []
digits_of (b ∷ bs) = hex_digits 16 (length b)

abbrev pub size_of : List (List ℕ) → ℕ
size_of [] = 0
size_of (b ∷ bs) = length b

abbrev pub behind : List (List ℕ) → List ℕ
behind [] = crlf
behind (b ∷ bs) = b ++ (crlf ++ wire bs)

pub wire-header : (bs : List (List ℕ)) → wire bs ≡ (digits_of bs ++ crlf) ++ behind bs
wire-header [] = refl
wire-header (b ∷ bs) =
    append_assoc (digits_of (b ∷ bs) ++ crlf) (b ++ crlf) (wire bs)
    ∙ ap (λ xs. (digits_of (b ∷ bs) ++ crlf) ++ xs) (append_assoc b crlf (wire bs))

zero_is_hex : is_hex b'0' ≡ true
unfolding is_hex
zero_is_hex = refl

pub digits_of-hex : (bs : List (List ℕ)) → All (λ b. is_hex b ≡ true) (digits_of bs)
digits_of-hex [] = (zero_is_hex, tt)
digits_of-hex (b ∷ bs) = hex_digits-hex 16 (length b)

pub length-digits_of :
    (bs : List (List ℕ)) → (0 < length (digits_of bs)) × (length (digits_of bs) ≤ 16)
length-digits_of [] = omega arith
length-digits_of (b ∷ bs) = length-hex_digits 15 (length b)

pub parse_chunk_header-digits_of :
    (bs : List (List ℕ))
    → All IsChunk bs
    → parse_chunk_header (digits_of bs ++ crlf) ≡ ok (size_of bs)
parse_chunk_header-digits_of [] h =
    parse_chunk_header_header (b'0' ∷ []) [] (zero_is_hex, tt) (omega arith) (omega arith)
parse_chunk_header-digits_of (b ∷ bs) h =
    let (some_digits, few) = length-digits_of (b ∷ bs) in
    parse_chunk_header_header (digits_of (b ∷ bs)) [] (digits_of-hex (b ∷ bs)) some_digits few
    ∙ ap (λ n. ok n) (hex_value-hex_digits 15 (length b) (omega (arith, h.0.1)))

module _ {R : Type 0} (rest : R → List ℕ) where
  -- Before a header, with `bs` to come; some of the header may be in the buffer.
  abbrev pub Waiting : ChunkedReader R → (body after : List ℕ) → Type 0
  Waiting c body after =
      (bs : List (List ℕ)) × All IsChunk bs
      × (body ≡ concat bs)
      × (ahead rest c ≡ wire bs ++ after)
      × (length (contents c.buffer) < length (digits_of bs ++ crlf))

  -- In a chunk of which `left` is to come, and `bs` behind it.
  abbrev pub InChunk : ChunkedReader R → (body after : List ℕ) → Type 0
  InChunk c body after =
      (left : List ℕ) × (bs : List (List ℕ)) × All IsChunk bs
      × (body ≡ left ++ concat bs)
      × (c.current_chunk_size ≡ c.current_chunk_count + length left)
      × (c.current_chunk_size < 2 ^ 64)
      × (ahead rest c ≡ left ++ (crlf ++ (wire bs ++ after)))
      × (0 < length left → contents c.buffer ≡ [])
      × (length (contents c.buffer) < 2)

  -- Behind the last chunk.
  abbrev pub Ended : ChunkedReader R → (body after : List ℕ) → Type 0
  Ended c body after =
      (body ≡ []) × (ahead rest c ≡ crlf ++ after) × (length (contents c.buffer) ≤ 2)

  abbrev pub Stage : ChunkedReaderStatus → ChunkedReader R → (body after : List ℕ) → Type 0
  Stage waiting_for_chunk c body after = Waiting c body after
  Stage reading_chunk c body after = InChunk c body after
  Stage done c body after = Ended c body after

  -- Of the body, `body` is still to be handed out; `after` is what follows on the wire. The buffer
  -- can hold a header.
  pub record Holds (c : ChunkedReader R) (body after : List ℕ) : Type 0 where
    pub valid : IsValid c.buffer
    pub room : 18 ≤ capacity c.buffer
    pub stage : Stage c.status c body after

pub same_front : (xs ys zs : List ℕ) → xs ++ ys ≡ xs ++ zs → ys ≡ zs
same_front [] ys zs e = e
same_front (x ∷ xs) ys zs e = same_front xs ys zs (cc)
