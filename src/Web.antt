-- ===== src/Web.antt =====
-- internal/web: what the server of the frontend computes.
pub mod Vite
