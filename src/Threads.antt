-- ===== src/Threads.antt =====
-- code/threads: threads, the scheduler and semaphores, on one processor.
pub mod State
pub mod Ids
pub mod Scheduler
pub mod Semaphore
