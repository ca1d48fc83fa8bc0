-- ===== src/Clt/Tests.antt =====
-- A client that may hold three connections, and the theorems on src/clt/clt.c at a concrete run.
use libiapp.Base.{
  ℕ, ◌+◌, ◌≡◌, refl, true, none, some, [], ◌∷◌, pos, minus_one, arith, has, has_nil, times,
}
use libiapp.Fde.Event.{Timeval}
use libiapp.Shm.State.{Ran, returned, aborts}
use libiapp.Shm.Alloc.{shm_alloc_init}
use libiapp.Netbuf.Tests.{heap}
use libiapp.Comm.State.{completed, eof}
use libiapp.Netbuf.Alloc.{iapp_netbuf_alloc}
use libiapp.Comm.Create.{comm_create}
use libiapp.Fde.Register.{fde_create}
use libiapp.Comm.Tests.{empty_loop}
use libiapp.Conn.State.{conn_state_none}
use libiapp.Conn.Tests.{sys}
use libiapp.Clt.State.{CltConn, CltApp}
use libiapp.Clt.Handlers.{clt_read_cb, clt_close_cb, conn_connect_cb, conn_ev_cleanup_cb}
use libiapp.Clt.App.{RoundCalls, thrclt_open_new_conn, thrclt_ev_newconn_cb}
use libiapp.Clt.Held.{held}
use libiapp.Clt.Kept.{IsCounted}
use libiapp.Clt.Books.{CltReach, here, rounds, connects, reads, closes, cleans, CltReach-IsCounted}

abbrev nothing : ℕ → CltConn
nothing c = record {
  fd = pos 0;
  comm = true;
  ev_cleanup = none;
  state = conn_state_none;
  total_read = 0;
  total_written = 0;
  write_close_thr = 0;
  r_buf = none;
  r_size = 0;
  nb = none;
}

abbrev pub start : CltApp
start = record {
  app_id = 0;
  max_io_size = 2;
  nconns = pos 3;
  connrate = pos 1;
  h = empty_loop;
  ev_stats = 0;
  num_clients = 0;
  ev_newconn = 1;
  total_read = 0;
  total_written = 0;
  total_opened = 0;
  total_closed = 0;
  conn_list = [];
  conns = nothing;
  net = heap;
  memory = λ a. 0;
  comms = [];
  asks = [];
  faults = 0;
}

-- All calls succeed.
abbrev pub answers : RoundCalls
answers = record {
  opens = λ i. record { new = sys; socket = λ family. pos (7 + i) };
  finds = λ i. some (record { ai_family = 2; ai_addr = 100; ai_addrlen = 16 });
}

abbrev pub noon : Timeval
noon = record { tv_sec = 10; tv_usec = 0 }

start-IsCounted : IsCounted (λ d. 0) start
unfolding times held shm_alloc_init
start-IsCounted = record {
  counted = refl;
  distinct = tt;
  young = λ c p. ground (arith, has_nil c);
  typed = λ c p. tt;
  booked = λ d. refl;
}

-- No descriptor is given.
abbrev no_descriptor : RoundCalls
no_descriptor = record answers { opens = λ i. record { new = sys; socket = λ family. minus_one } }

lost : thrclt_ev_newconn_cb 2 no_descriptor noon start ≡ aborts
unfolding thrclt_ev_newconn_cb thrclt_open_new_conn iapp_netbuf_alloc
lost = refl

abbrev of_ran : Ran CltApp → CltApp
of_ran (returned s) = s
of_ran _ = start

-- Two connections at a rate of one; the first is connected, meets the end of its stream, and is freed.
abbrev pub two : CltApp
two = of_ran (thrclt_ev_newconn_cb 2 answers noon start)

two_clients : two.conn_list ≡ 0 ∷ 4 ∷ []
unfolding thrclt_ev_newconn_cb thrclt_open_new_conn iapp_netbuf_alloc comm_create fde_create
two_clients = refl

abbrev ended : CltApp
ended = clt_close_cb 0 (clt_read_cb eof (pos 0) 0 (conn_connect_cb completed 0 two))

abbrev pub one : CltApp
one = of_ran (conn_ev_cleanup_cb 0 ended)

one_reached : CltReach start one
unfolding thrclt_ev_newconn_cb conn_connect_cb clt_read_cb clt_close_cb conn_ev_cleanup_cb has
    thrclt_open_new_conn iapp_netbuf_alloc comm_create fde_create
one_reached =
    cleans 0
      (closes 0 (
        reads eof (pos 0) 0 (connects completed 0 (rounds 2 answers noon here (omega arith) refl))))
      refl refl

CltReach-IsCounted_example : IsCounted (λ d. 0) one
CltReach-IsCounted_example = CltReach-IsCounted (λ d. 0) one_reached start-IsCounted
