-- ===== src/Examples.antt =====
-- The theorems at concrete inputs: a small buffer, an allocator with 4096 bytes, a request on the
-- wire, a router with a few routes, a queue of tasks, a manager with two timers, an I/O scheduler over a
-- small kernel, a bitmap of 70 workers, a shared stack of 4 bytes, a pool of fibers.
mod Buffers
mod Requests
mod Routes
mod Queues
mod Timers
mod Io
mod Bitmaps
mod Stacks
