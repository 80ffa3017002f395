-- ===== src/Net.antt =====
-- The network layer, znet/.
pub mod Memory
pub mod Endian
pub mod Buffer
