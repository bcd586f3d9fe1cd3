-- ===== src/Datachannels.antt =====
-- datachannels: data channels over QUIC.
mod Tests
pub mod Transport
pub mod Wrappers
