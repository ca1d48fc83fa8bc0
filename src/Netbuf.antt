-- ===== src/Netbuf.antt =====
-- lib/libiapp/netbuf.c and netbuf.h: buffers from malloc(3) or from shared memory.
pub mod State
pub mod Alloc
pub mod Lifetime
pub mod Tests
