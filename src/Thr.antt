-- ===== src/Thr.antt =====
-- lib/libiapp/thr.c and thr.h: groups of worker threads with an event loop each.
pub mod State
pub mod Group
pub mod Created
pub mod Tests
