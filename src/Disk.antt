-- ===== src/Disk.antt =====
-- lib/libiapp/disk.c and disk.h: handles for operations on files.
pub mod State
pub mod Handle
pub mod Opening
