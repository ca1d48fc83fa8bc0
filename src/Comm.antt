-- ===== src/Comm.antt =====
-- lib/libiapp/comm.c and comm.h: asynchronous sockets on top of the event loop.
pub mod State
pub mod Api
pub mod Handlers
pub mod Sockets
pub mod Udp
pub mod Reach
pub mod Ledger
pub mod Books
pub mod Datagrams
pub mod WriteEnd
pub mod Completed
pub mod Histories
pub mod Create
pub mod Created
pub mod Undone
pub mod Birth
pub mod Wiring
pub mod Wired
pub mod Handled
pub mod Moved
pub mod Closing
pub mod Shutdown
pub mod Tests
