-- ===== src/Clt.antt =====
-- src/clt/clt.c: the client program, which opens connections at a rate and reads from them.
pub mod State
pub mod Handlers
pub mod New
pub mod App
pub mod Shape
pub mod Held
pub mod Kept
pub mod Opened
pub mod Round
pub mod Alive
pub mod Unharmed
pub mod Orderly
pub mod Books
pub mod Tests
pub mod OrderlyTests
