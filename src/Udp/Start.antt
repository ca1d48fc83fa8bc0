-- ===== src/Udp/Start.antt =====
-- thrclt_new of src/udp_clt/udp_clt.c up to its endless loop.
use libiapp.Base.{
  ℕ, suc, ◌+◌, Bool, true, false, not, Option, none, some, pos, minus_one, if◌then◌else◌, store,
}
use libiapp.Fde.Event.{Timeval, FdeHead, timer}
use libiapp.Fde.Register.{fde_create}
use libiapp.Fde.Timeout.{fde_add_timeout}
use libiapp.Comm.State.{World}
use libiapp.Comm.Create.{comm_create}
use libiapp.Comm.Birth.{begin}
use libiapp.Comm.Api.{comm_udp_write_setup}
use libiapp.FdUtil.Setup.{
  af_inet, sock_dgram, Kernel, SocketCalls, set_socket, open_socket, comm_fd_set_nonblocking,
  reuse_both,
}

-- What a thread sets up: its events, and its comm object with the loop. `faults` counts the uses of a NULL pointer.
pub record UdpStart : Type 0 where
  pub h : FdeHead
  pub comm_wr : Option World
  pub ev_newconn : Option ℕ
  pub ev_stats : Option ℕ
  pub faults : ℕ

pub record UdpCalls : Type 0 where
  pub sockets : SocketCalls
  pub calloc_newconn : Bool
  pub calloc_stats : Bool
  pub calloc_comm : ℕ → Bool
  pub note_eof : ℕ
  pub handlers : ℕ → ℕ
  pub newconn_cb : ℕ
  pub stat_print : ℕ
  pub write_cb : ℕ

-- The local socket: bound to a port of the kernel's choice, 0. Where bind(2) fails, it stays open.
unfoldable pub local_socket : SocketCalls → Kernel → Kernel × Option ℕ
unfolding comm_fd_set_nonblocking reuse_both store
local_socket sys k = elim sys.socket [
  | none ↦ (k, none)
  | some fd ↦
      (let n = (comm_fd_set_nonblocking sys (open_socket k fd af_inet sock_dgram) fd true).0 in
        let r = reuse_both sys n fd in
        if not sys.bind
        then (r, none)
        else (set_socket r fd (record (r.sockets fd) { bound = some 0 }), some fd))
]

-- fde_add_timeout on the loop of the comm object, of an event that may be NULL.
abbrev pub add_udp_timer : Option ℕ → Timeval → World → UdpStart → UdpStart
add_udp_timer none tv w s = record s { comm_wr = some w; faults = suc s.faults }
add_udp_timer (some ev) tv w s =
    let h = fde_add_timeout w.fh ev tv in record s { h = h; comm_wr = some (record w { fh = h }) }

-- thrclt_new behind comm_create: the object is set up for writing, and the two timers are started.
unfoldable pub start_sending :
    UdpCalls → (max_qdepth : ℕ) → (now later : Timeval) → World → UdpStart → UdpStart
unfolding comm_udp_write_setup fde_add_timeout
start_sending sys max_qdepth now later w s =
    let v = (comm_udp_write_setup w sys.write_cb max_qdepth).0 in
    let t = add_udp_timer s.ev_stats (record now { tv_sec = now.tv_sec + 1 }) v s in
    elim t.comm_wr [ none ↦ t | some u ↦ add_udp_timer s.ev_newconn later u t ]

-- thrclt_new. Without a socket, it returns; without a comm object, comm_udp_write_setup dereferences NULL.
unfoldable pub udp_thrclt_new :
    UdpCalls → (max_qdepth : ℕ) → (now later : Timeval) → Kernel → FdeHead → Kernel × UdpStart
unfolding local_socket start_sending fde_create comm_create
udp_thrclt_new sys max_qdepth now later k h =
    let p = fde_create sys.calloc_newconn sys.note_eof h minus_one timer false sys.newconn_cb in
    let q = fde_create sys.calloc_stats sys.note_eof p.0 minus_one timer false sys.stat_print in
    let s : UdpStart = record {
      h = q.0;
      comm_wr = none;
      ev_newconn = p.1;
      ev_stats = q.1;
      faults = 0;
    } in
    let (n, o) = local_socket sys.sockets k in
    elim o [
      | none ↦ (n, s)
      | some fd ↦
          (let made = comm_create sys.calloc_comm sys.note_eof sys.handlers s.h (pos fd) none in
            elim made.1 [
              | none ↦ (n, record s { h = made.0; faults = 1 })
              | some c ↦ (
                n,
                start_sending sys max_qdepth now later (begin made.0 c) (record s { h = made.0 }),
              )
            ])
    ]
