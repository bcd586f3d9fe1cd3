-- ===== src/Data.antt =====
-- The package data: bytes sent over a transport and taken at the other end.
pub mod Bin
pub mod Bytes
pub mod Chunks
pub mod Run
pub mod Sink
pub mod Source
pub mod Receiving
pub mod Sending
pub mod Transfer
pub mod Works
mod Tests
