-- ===== src/Concurrency.antt =====
-- kernel/common/concurrency: the queue of tasks and the threads that run them.
pub mod LockFreeQueue
pub mod Fifo
pub mod ThreadPool
pub mod Running
pub mod Stopping
mod Tests
