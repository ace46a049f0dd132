-- ===== src/Parse.antt =====
-- parse.rs: the scanners and parsers of HTTP/1 text. A byte is a number below 256; an index stays
-- below the length of a slice, so that no index of this file wraps.
pub mod Chars
pub mod Scan
pub mod Lines
pub mod Blanks
pub mod Hex
pub mod Chunk
pub mod StartLine
mod Tests
