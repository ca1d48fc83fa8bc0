-- ===== src/FdUtil.antt =====
-- lib/libiapp/fd_util.c: descriptors that listen.
pub mod Setup
pub mod Open
pub mod Tests
