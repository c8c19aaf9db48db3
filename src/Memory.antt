-- ===== src/Memory.antt =====
-- gwr-models/src/memory: accesses, the address map, the cache.
pub mod Access
pub mod Map
pub mod Cache
pub mod Device
pub mod Strided
