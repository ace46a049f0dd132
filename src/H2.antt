-- ===== src/H2.antt =====
-- src/http2: the HTTP/2 half of the server.
pub mod Error
pub mod Crates
pub mod Settings
pub mod Frame
pub mod Flow
pub mod Connection
pub mod Stream
pub mod Reader
pub mod BackgroundRead
mod Tests
