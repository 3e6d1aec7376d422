-- ===== src/Queue.antt =====
-- Package queue (queue/).
pub mod ChanQueue
pub mod Processor
