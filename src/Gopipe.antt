-- ===== src/Gopipe.antt =====
-- gopipe: the media pipeline in Go.
mod Tests
pub mod Codec
pub mod Attributes
pub mod Pipeline
pub mod Coders
pub mod Packetizer
pub mod Spacer
pub mod Sender
pub mod FakeSource
pub mod IvfDataSource
pub mod Y4mSink
pub mod Y4mSource
pub mod Depacketizer
