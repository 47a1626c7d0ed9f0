-- ===== src/Web.antt =====
-- The web application: apps/web/src.
pub mod Client
