-- ===== src/Response/Tests.antt =====
-- The theorems on the chunked writer at a small buffer.
use qhttp.Base.{◌≡◌, ◌⊎◌, refl, false, ℕ, [], ◌∷◌, ◌++◌, some, ok, arith, drop, IoError}
use qhttp.Parse.Chunk.{find_chunk_header_end, parse_chunk_header}
use qhttp.Response.{ready, failed, pending, takes, not_ready, ChunkedWriter, flush_inner}
use qhttp.Response.Sent.{unsent, IsSending}
use qhttp.Response.Chunks.{chunk, IsCollecting, flush_inner-chunk, parse_chunk_header-chunk}

-- Two bytes are collected; the writer below takes three bytes and is not ready then.
abbrev collecting : ChunkedWriter
collecting = record {
  writer = record { answers = takes 3 ∷ not_ready ∷ []; sent = 1 ∷ [] };
  buffer = 7 ∷ 8 ∷ 0 ∷ 0 ∷ 0 ∷ 0 ∷ [];
  buffer_pointer = 2;
  buffer_read_pointer = 0;
  header_buffer = [];
  header_buffer_read_pointer = 0;
  finishing = false;
  finished = false;
}

collecting-IsCollecting : IsCollecting collecting
collecting-IsCollecting = record {
  header = refl;
  header_pointer = refl;
  read_pointer = refl;
  room = omega arith;
}

flush_inner-chunk_example :
    ((flush_inner collecting).1.writer.sent ++ unsent (flush_inner collecting).1
      ≡ 1 ∷ chunk (7 ∷ 8 ∷ []))
    × (((flush_inner collecting).0 ≡ ready tt)
        ⊎ (((flush_inner collecting).0 ≡ pending)
            ⊎ ((e : IoError) × ((flush_inner collecting).0 ≡ failed e))))
flush_inner-chunk_example = flush_inner-chunk collecting collecting-IsCollecting refl

-- "2" was sent, and CR NL and the body were not.
abbrev sending : ChunkedWriter
sending = record collecting {
  buffer = 7 ∷ 8 ∷ 13 ∷ 10 ∷ 0 ∷ 0 ∷ [];
  buffer_pointer = 4;
  header_buffer = 50 ∷ 13 ∷ 10 ∷ [];
  header_buffer_read_pointer = 1;
}

sending-IsSending : IsSending sending
sending-IsSending = record { header = omega arith; body = omega arith }

parse_chunk_header-chunk_example :
    (end : ℕ) × (find_chunk_header_end (chunk (7 ∷ 8 ∷ []) ++ 9 ∷ []) ≡ ok (some end))
    × (parse_chunk_header (chunk (7 ∷ 8 ∷ []) ++ 9 ∷ []) ≡ ok 2)
    × (drop end (chunk (7 ∷ 8 ∷ []) ++ 9 ∷ []) ≡ 7 ∷ 8 ∷ 13 ∷ 10 ∷ 9 ∷ [])
parse_chunk_header-chunk_example = parse_chunk_header-chunk (7 ∷ 8 ∷ []) (9 ∷ []) (omega arith)
