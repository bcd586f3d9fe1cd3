-- ===== src/Webrtc.antt =====
-- webrtc: the media transport over pion's WebRTC.
mod Tests
pub mod Signaling
pub mod HttpSignaling
pub mod Ccfb
pub mod Net
pub mod DcSender
