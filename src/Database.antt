-- ===== src/Database.antt =====
-- Package database (database/).
pub mod Parser
pub mod Files
pub mod Service
pub mod Migrate
