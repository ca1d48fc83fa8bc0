-- ===== src/Udp.antt =====
-- src/udp_clt/udp_clt.c and src/udp_srv/udp_srv.c: the programs that send and receive datagrams.
pub mod State
pub mod Client
pub mod Server
pub mod Flow
pub mod Books
pub mod Start
pub mod Rate
pub mod Tests
