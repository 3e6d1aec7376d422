-- ===== src/Auth.antt =====
-- auth/: users, passwords and the HTTP handlers over them.
pub mod Service
pub mod Http
pub mod Domain
