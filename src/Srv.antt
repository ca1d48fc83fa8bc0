-- ===== src/Srv.antt =====
-- src/srv/srv.c and thr.h: the server's threads, which accept connections and hand them to each other.
pub mod Server
pub mod Setup
pub mod Options
pub mod RoundTrip
pub mod Books
pub mod Tests
