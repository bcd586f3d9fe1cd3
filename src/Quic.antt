-- ===== src/Quic.antt =====
-- internal/quictransport: the real-time congestion-controlled QUIC connection.
mod Tests
pub mod Feedback
pub mod Tracer
pub mod PacketEvents
pub mod Connection
