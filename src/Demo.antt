-- ===== src/Demo.antt =====
-- demo-app/cmd/: programs that put the library together.
pub mod Replies
pub mod Serving
pub mod Auth
pub mod Api
pub mod Database
pub mod Jobs
pub mod Schedules
pub mod Clock
pub mod WideEvents
