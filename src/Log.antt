-- ===== src/Log.antt =====
-- log/: the logger. slog's handler, which writes the records, is left out: a logger is the
-- attributes that its records carry, the settings of its handler and the cell that holds its level.
pub mod Level
pub mod Stack
pub mod Attr
pub mod Logger
