-- ===== src/Shm.antt =====
-- lib/libiapp/shm_alloc.c and shm_alloc.h: allocations from slabs of shared memory.
pub mod State
pub mod Alloc
pub mod Sane
pub mod Slabs
pub mod Steps
pub mod Reach
pub mod Reuse
pub mod Limits
pub mod Tests
