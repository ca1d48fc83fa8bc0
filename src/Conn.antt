-- ===== src/Conn.antt =====
-- lib/libiapp/conn.c, conn.h and conn_cfg.h: a stream connection over one comm object.
pub mod State
pub mod Handlers
pub mod New
pub mod Fine
pub mod Life
pub mod Composed
pub mod Held
pub mod Release
pub mod Buffer
pub mod Tests
