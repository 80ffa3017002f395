-- ===== src/Http.antt =====
-- The HTTP layer, zhttp/.
pub mod Common
pub mod Text
pub mod Request
pub mod Parser
pub mod Middleware
pub mod Radix
pub mod Response
pub mod Router
