-- ===== src/Gstreamer.antt =====
-- gstreamer: how the program puts GStreamer's elements together.
pub mod RtpBin
