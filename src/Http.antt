-- ===== src/Http.antt =====
-- What the program uses of Go's `net/http`: headers, the connection's side of a response, requests
-- and handlers.
pub mod Header
pub mod Conn
pub mod Names
