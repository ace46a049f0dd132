-- ===== src/Http1.antt =====
-- lib.rs: the connection of HTTP/1. The loop of `handle` serves one request after the other; while a
-- handler runs, the connection reads the body for it.
pub mod Writer
pub mod Bodies
mod Tests
