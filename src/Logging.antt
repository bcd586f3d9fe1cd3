-- ===== src/Logging.antt =====
-- internal/logging: the parts that keep state.
mod Tests
pub mod Unwrapper
