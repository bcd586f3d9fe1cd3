-- ===== src/Moq.antt =====
-- moq: media over QUIC, over moqtransport.
mod Tests
pub mod Transport
