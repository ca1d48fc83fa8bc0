-- ===== src/FdUtil/Setup.antt =====
-- lib/libiapp/fd_util.c, with its user in comm.c, and thrsrv_listenfd of src/udp_srv/udp_srv.c. The kernel's side is a list of descriptors, what each
-- is bound to, and its flags: O_NONBLOCK, and the others as one number. Ports are ints; htons(3) keeps 16 bits.
use libiapp.Base.{
  ℕ, ◌-◌, ◌%◌, ◌^◌, Bool, true, false, not, Option, none, some, List, ◌∷◌, ℤ, pos, negsuc,
  if◌then◌else◌, remove, store,
}
use libiapp.Comm.State.{FdeComm}

pub data Family : Type 0 where
  af_inet af_inet6 : Family

pub data SockType : Type 0 where
  sock_stream sock_dgram : SockType

pub record FileFlags : Type 0 where
  pub o_nonblock : Bool
  pub others : ℕ

-- A socket: its family and type, its options, the port that it is bound to on any address, and whether it listens.
pub record Socket : Type 0 where
  pub family : Family
  pub sock_type : SockType
  pub flags : FileFlags
  pub reuse_addr : Bool
  pub reuse_port : Bool
  pub bound : Option ℕ
  pub listening : Bool

pub record Kernel : Type 0 where
  pub descriptors : List ℕ
  pub sockets : ℕ → Socket

-- What the system calls answer: socket(2) a descriptor, the others success, and F_GETFL also where it fails
-- the flags that -1 stands for.
pub record SocketCalls : Type 0 where
  pub socket : Option ℕ
  pub getfl : Bool
  pub setfl : Bool
  pub reuse_addr : Bool
  pub reuse_port : Bool
  pub bind : Bool
  pub listen : Bool

abbrev pub set_socket : Kernel → ℕ → Socket → Kernel
set_socket k fd x = record k { sockets = store k.sockets fd x }

abbrev pub new_socket : Family → SockType → Socket
new_socket family ty = record {
  family = family;
  sock_type = ty;
  flags = record { o_nonblock = false; others = 0 };
  reuse_addr = false;
  reuse_port = false;
  bound = none;
  listening = false;
}

-- socket(2) where it succeeds, and close(2).
abbrev pub open_socket : Kernel → ℕ → Family → SockType → Kernel
open_socket k fd family ty =
    set_socket (record k { descriptors = fd ∷ k.descriptors }) fd (new_socket family ty)

abbrev pub close_socket : Kernel → ℕ → Kernel
close_socket k fd = record k { descriptors = remove fd k.descriptors }

-- The flags that F_GETFL answers; -1 has every bit.
abbrev pub read_flags : (getfl : Bool) → FileFlags → FileFlags
read_flags getfl f = if getfl then f else record { o_nonblock = true; others = 2 ^ 32 - 1 }

-- comm_fd_set_nonblocking: the flags are written back with O_NONBLOCK set or cleared. The result says that F_SETFL
-- succeeded.
unfoldable pub comm_fd_set_nonblocking :
    SocketCalls → Kernel → (fd : ℕ) → (enable : Bool) → Kernel × Bool
unfolding store
comm_fd_set_nonblocking sys k fd enable =
    let x = k.sockets fd in
    let f = record (read_flags sys.getfl x.flags) { o_nonblock = enable } in
    if sys.setfl then (set_socket k fd (record x { flags = f }), true) else (k, false)

-- What a function that opens a socket comes to: a descriptor, -1, or the end of the process by err(3).
pub data Opened : Type 0 where
  opened : (fd : ℕ) → Opened
  failed : Opened
  exits : Opened

-- comm_fd_listenfd_setup_tcp behind setsockopt(2).
unfoldable pub bind_listen : SocketCalls → Kernel → (fd port : ℕ) → Kernel × Opened
unfolding store remove
bind_listen sys k fd port =
    let b = set_socket k fd (record (k.sockets fd) { bound = some port }) in
    let l = set_socket b fd (record (b.sockets fd) { listening = true }) in
    if not sys.bind
    then (close_socket k fd, failed)
    else if not sys.listen
    then (close_socket b fd, failed)
    else (l, opened fd)

-- comm_fd_listenfd_setup_tcp.
unfoldable pub comm_fd_listenfd_setup_tcp :
    SocketCalls → Kernel → Family → (port : ℕ) → Kernel × Opened
unfolding comm_fd_set_nonblocking bind_listen store
comm_fd_listenfd_setup_tcp sys k family port = elim sys.socket [
  | none ↦ (k, failed)
  | some fd ↦
      (let n = (comm_fd_set_nonblocking sys (open_socket k fd family sock_stream) fd true).0 in
        if not sys.reuse_port
        then (n, exits)
        else bind_listen sys (set_socket n fd (record (n.sockets fd) { reuse_port = true })) fd
            port)
]

-- htons(3) of an int.
abbrev pub port_of : ℤ → ℕ
port_of (pos n) = n % 2 ^ 16
port_of (negsuc n) = (2 ^ 16 - 1 - n % 2 ^ 16)

-- comm_fd_create_listen_tcp_v4 and comm_fd_create_listen_tcp_v6.
unfoldable pub comm_fd_create_listen_tcp_v4 : SocketCalls → Kernel → ℤ → Kernel × Opened
unfolding comm_fd_listenfd_setup_tcp
comm_fd_create_listen_tcp_v4 sys k port = comm_fd_listenfd_setup_tcp sys k af_inet (port_of port)

unfoldable pub comm_fd_create_listen_tcp_v6 : SocketCalls → Kernel → ℤ → Kernel × Opened
unfolding comm_fd_listenfd_setup_tcp
comm_fd_create_listen_tcp_v6 sys k port = comm_fd_listenfd_setup_tcp sys k af_inet6 (port_of port)

-- setsockopt(2) of the two options of thrsrv_listenfd, whose failure is not looked at.
unfoldable pub reuse_both : SocketCalls → Kernel → (fd : ℕ) → Kernel
unfolding store
reuse_both sys k fd =
    let x = k.sockets fd in
    set_socket k fd (record x {
      reuse_addr = if sys.reuse_addr then true else x.reuse_addr;
      reuse_port = if sys.reuse_port then true else x.reuse_port;
    })

-- thrsrv_listenfd of src/udp_srv/udp_srv.c.
unfoldable pub thrsrv_listenfd : SocketCalls → Kernel → (port : ℤ) → Kernel × Opened
unfolding comm_fd_set_nonblocking reuse_both store remove
thrsrv_listenfd sys k port = elim sys.socket [
  | none ↦ (k, failed)
  | some fd ↦
      (let n = (comm_fd_set_nonblocking sys (open_socket k fd af_inet sock_dgram) fd true).0 in
        let r = reuse_both sys n fd in
        if not sys.bind
        then (close_socket r fd, failed)
        else (set_socket r fd (record (r.sockets fd) { bound = some (port_of port) }), opened fd))
]

-- comm_set_nonblocking of lib/libiapp/comm.c. A negative descriptor is none.
unfoldable pub comm_set_nonblocking :
    SocketCalls → Kernel → FdeComm → (enable : Bool) → Kernel × Bool
unfolding comm_fd_set_nonblocking
comm_set_nonblocking sys k c enable = elim c.fd [
  | pos fd ↦ comm_fd_set_nonblocking sys k fd enable
  | negsuc n ↦ (k, false)
]
