-- ===== src/Coroutine.antt =====
-- The coroutine runtime, zcoroutine/.
pub mod WorkStealing
pub mod Bitmap
pub mod Timer
pub mod Io
pub mod SharedStack
pub mod FiberPool
pub mod TaskQueue
