-- ===== src/Tests.antt =====
-- Runs of the models on small inputs, and the theorems at such inputs.
mod Parsing
mod Migrating
mod Queueing
mod Accounts
mod Answers
mod Journeys
mod Starting
mod Logging
mod Tracing
mod Scheduling
mod Mounts
mod Registering
mod Demos
mod Programs
mod Running
mod Orders
