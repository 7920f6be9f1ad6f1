-- ===== src/Middleware.antt =====
-- internal/middleware: the server's own middleware.
pub mod ResponseWriter
pub mod Metrics
pub mod Trace
pub mod RequestLog
