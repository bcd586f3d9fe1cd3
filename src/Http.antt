-- ===== src/Http.antt =====
-- The package http: the server and its handlers.
pub mod Server
