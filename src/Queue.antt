-- ===== src/Queue.antt =====
-- The message queue, src/msgate/queue.
pub mod Backoff
pub mod Breaker
pub mod Repository
pub mod Processor
pub mod Worker
pub mod Threads
pub mod Service
