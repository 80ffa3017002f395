-- ===== src/Coroutine/Io.antt =====
-- zcoroutine/include/io and zcoroutine/src/io: descriptor contexts, their table, the poller and the I/O scheduler.
pub mod FdContext
pub mod Table
pub mod Epoll
pub mod Scheduler
pub mod Thread
