-- ===== src/Cache.antt =====
-- The permission cache: the keys of src/cache.h, the per-backend L1 of src/cache_l1.h, the shared L2
-- of src/cache_l2.h and the two-level front of src/cache.c.
pub mod Key
pub mod Verdict
pub mod Index
pub mod Encode
pub mod L1
pub mod L2
pub mod Front
