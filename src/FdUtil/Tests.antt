-- ===== src/FdUtil/Tests.antt =====
-- A descriptor that listens, and the theorem on lib/libiapp/fd_util.c at a concrete run.
use libiapp.Base.{true, some, [], ◌∷◌}
use libiapp.FdUtil.Setup.{
  af_inet, sock_dgram, Kernel, SocketCalls, new_socket, comm_fd_listenfd_setup_tcp,
}
use libiapp.FdUtil.Open.{Listened, comm_fd_listenfd_setup_tcp-Listened}

abbrev grants : SocketCalls
grants = record {
  socket = some 4;
  getfl = true;
  setfl = true;
  reuse_addr = true;
  reuse_port = true;
  bind = true;
  listen = true;
}

abbrev standard : Kernel
standard = record { descriptors = 2 ∷ 1 ∷ 0 ∷ []; sockets = λ fd. new_socket af_inet sock_dgram }

comm_fd_listenfd_setup_tcp-Listened_example :
    Listened grants af_inet 1667 standard (comm_fd_listenfd_setup_tcp grants standard af_inet 1667)
comm_fd_listenfd_setup_tcp-Listened_example =
    comm_fd_listenfd_setup_tcp-Listened grants standard af_inet 1667
