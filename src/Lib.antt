-- ===== src/Lib.antt =====
-- qhttp is an HTTP server library. A connection speaks HTTP/1 or HTTP/2: HTTP/1 text is found and
-- taken apart by the functions of src/parse.rs, HTTP/2 bytes pass through a buffer (src/buffer.rs)
-- and are cut into frames (src/http2/frame.rs), which the main loop of the connection
-- (src/http2/mod.rs) converts to typed frames and handles, under the settings of both sides
-- (src/http2/settings.rs).
--
-- The files and the code:
--   Base     what the others share: Boolean tests, lists over the native numbers, results with a
--            panic, 64-bit sums, `i32`, big-endian integers, and equality and prefixes of texts.
--   Buffer   src/buffer.rs, `Buffer`. `inner` is the vector. Buffer/Contents has the invariant,
--            Buffer/Fill and Buffer/Drain the operations, Buffer/Fifo the queue they implement.
--   H2       src/http2. H2/Error is error.rs. H2/Crates has what other crates generate.
--            H2/Settings is settings.rs. H2/Frame is frame.rs, a child for each typed frame,
--            H2/Frame/Wire the raw header, the checks of a header, the padding, and the bytes that
--            `write_frame` writes. H2/Frame/Receive is the way of a frame in `main_loop`, as far as
--            its handling. H2/Flow is the distribution of the connection's window in mod.rs.
--            H2/Connection is `Connection` of mod.rs: Streams the handles of its streams,
--            ReadRequest and Answers the requests and responses, Requests, Opening and Frames the
--            arms of `main_loop` that serve the tasks, HEADERS and the other frames, and Loop the
--            loop itself with its timers, its shutdown and `handle_inner`. Invariant, Core,
--            Accounts and Opening/Fragmented are their proofs: what always holds, what a step
--            changes, what a run adds up to, what becomes of a header block of several frames.
--            H2/Stream is stream.rs, with the sending of a body in H2/Stream/Body. H2/Reader is
--            `read_preface` and `read_next_frame`, H2/BackgroundRead the reader of a request's body.
--   Parse    src/parse.rs. Parse/Scan, Parse/Lines and Parse/Blanks find ends, Parse/Chunk and
--            Parse/Hex read chunk headers, Parse/StartLine start lines.
--   Response src/response.rs, `ChunkedWriter`. Response/Sent and Response/Chunks say what a flush
--            sends, Response/Written what a write collects.
--   Ranges   src/util/byterange.rs, the ranges of a Range header: `ByteRange` and the parser of
--            `ByteRanges`. Ranges/Written has headers in digits.
--   Request  src/request.rs, `LimitReader`. Request/Limit says what it takes from the reader below.
--            Request/Headers is what the headers say of the body and its ranges. Request/Chunked is
--            `ChunkedReader`: Loops its reads, Steps, Ends, Headers and Stages the parts of a poll,
--            Polls the whole.
--   Http1    src/lib.rs, the connection of HTTP/1. Http1/Writer writes heads and the line that asks
--            for a body. Http1/Bodies is the way of a request's body: `BackgroundRead`, its reader, and
--            `handle_background_read_req`, which serves it. Order, Reads and Service say what is given to
--            the reader, Polls and InOrder what it puts, OldBytes with what it begins.
--   Paths    src/util/path.rs, the templates of paths. Paths/Templates says which texts are
--            templates, Paths/Matching what a path gives to the variables.
--   The files named Tests hold concrete runs.
--
-- Fallible code returns a `Result` with three outcomes: `ok`, `err` and `panic`, the last for an
-- `unwrap`, an index or a slice out of range. Sums and shifts are those of a release build on a
-- 64-bit machine; a vector has less than 2^63 bytes. A loop over a slice is structural recursion on
-- the bytes left; the two loops that move by a computed distance, the loops that distribute the
-- window, that split a header block, that send a chunk and that fill the buffer have the number of
-- bytes, requests or inputs as their fuel; running out of it is a panic, and the results say
-- that there is none. Sixteen digits are the fuel of a hexadecimal number below 2^64.
--
-- A connection and a stream are states that their methods take and return, also beside an error. The
-- main loop is a function of the events that `select!` finds ready, in their order; the frames
-- written, the messages sent on a channel and the streams started are part of the state. An error
-- of `distribute_window`, or of the windows of all streams, is given with the connection as it was
-- before the loop that failed; then the connection only writes its GOAWAY.
--
-- Parameters stand for code of other crates: the conversions that num_derive generates and the
-- methods that bitflags generates (`Crates`, with their documented laws), the readers of methods and
-- URIs of the http crate, what a reader delivers, which streams and channels are there, what the
-- writer below a chunked writer answers: the answers listed in its state, and for a connection its
-- `Surroundings`: which frames its writer takes, the coder and decoder of hpack, and the checks of
-- the http crate. The headers of a request and the texts of versions and statuses (`Http`) and the
-- numbers and values of serde_json are parameters too. Instants are numbers.
--
-- Not modelled: logging, the scheduling of tasks, sockets, the running of a handler, HPACK, TLS, the
-- other parts of the HTTP/1 connection (the reading of request heads, the sending of bodies, its
-- loop), the file server and the ring buffer.
pub mod Base
pub mod Buffer
pub mod H2
pub mod Http1
pub mod Parse
pub mod Paths
pub mod Ranges
pub mod Request
pub mod Response
