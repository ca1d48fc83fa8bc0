-- ===== src/Debug.antt =====
-- lib/libidebug/debug.c and debug.h: sections of debug output, and where their messages go.
pub mod State
pub mod Log
pub mod Sections
pub mod Output
pub mod Tests
