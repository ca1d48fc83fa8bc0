-- ===== src/Fde.antt =====
-- lib/libiapp/fde.c and fde.h: the event loop of one thread.
pub mod Event
pub mod Kq
pub mod Register
pub mod Timeout
pub mod Loop
pub mod TimerQueue
pub mod Invariant
pub mod Soundness
pub mod Effects
pub mod CallbackPass
pub mod Time
pub mod TimerOrder
pub mod TimerPass
pub mod Poll
pub mod Changes
pub mod Tests
