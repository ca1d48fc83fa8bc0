-- ===== src/FdUtil/Open.antt =====
-- What the functions of lib/libiapp/fd_util.c leave open.
use libiapp.Base.{
  ℕ, ◌≡◌, refl, sym, ap, ◌∙◌, Bool, true, false, not, some, ◌∷◌, arith, ◌==◌, if_both, if_cases,
  option_cases, remove, remove-head, store, store_same, store_other,
}
use libiapp.FdUtil.Setup.{
  Family, sock_stream, Socket, Kernel, SocketCalls, read_flags, new_socket, open_socket,
  close_socket, set_socket, comm_fd_set_nonblocking, Opened, opened, failed, exits, bind_listen,
  comm_fd_listenfd_setup_tcp,
}

-- A socket that listens on a port of any address, shares the port, and is non-blocking where F_SETFL succeeded.
abbrev pub IsListening : SocketCalls → Family → (port : ℕ) → Socket → Type 0
IsListening sys family port x =
    (x.family ≡ family)
    × (x.sock_type ≡ sock_stream)
    × (x.bound ≡ some port)
    × (x.listening ≡ true)
    × (x.reuse_port ≡ true)
    × (x.flags.o_nonblock ≡ sys.setfl)

-- With a descriptor, it is open and listens, and nothing else changed; without, what was open is open.
-- The process ends only where SO_REUSEPORT is refused.
abbrev pub Listened : SocketCalls → Family → (port : ℕ) → Kernel → Kernel × Opened → Type 0
Listened sys family port k (n, opened fd) =
    (n.descriptors ≡ fd ∷ k.descriptors)
    × IsListening sys family port (n.sockets fd)
    × ((j : ℕ) → (fd == j) ≡ false → n.sockets j ≡ k.sockets j)
Listened sys family port k (n, failed) = n.descriptors ≡ k.descriptors
Listened sys family port k (n, exits) = sys.reuse_port ≡ false

-- A socket that was opened and made non-blocking.
abbrev IsFresh : SocketCalls → Family → Kernel → (fd : ℕ) → Kernel → Type 0
IsFresh sys family k fd n =
    (n.descriptors ≡ fd ∷ k.descriptors)
    × ((n.sockets fd).family ≡ family)
    × ((n.sockets fd).sock_type ≡ sock_stream)
    × ((n.sockets fd).flags.o_nonblock ≡ sys.setfl)
    × ((j : ℕ) → (fd == j) ≡ false → n.sockets j ≡ k.sockets j)

module _ (sys : SocketCalls) (family : Family) (k : Kernel) (fd : ℕ) where
  set_nonblocking-IsFresh :
      IsFresh sys family k fd
        (comm_fd_set_nonblocking sys (open_socket k fd family sock_stream) fd true).0
  unfolding comm_fd_set_nonblocking store
  set_nonblocking-IsFresh =
      let o = open_socket k fd family sock_stream in
      let x = o.sockets fd in
      let f = record (read_flags sys.getfl x.flags) { o_nonblock = true } in
      let e = store_same k.sockets fd (new_socket family sock_stream) in
      let g = store_same o.sockets fd (record x { flags = f }) in
      if_cases (λ (y : Kernel × Bool). IsFresh sys family k fd y.0) sys.setfl
        (λ p. (
          refl,
          ap (λ (y : Socket). y.family) (g ∙ ap (λ (y : Socket). record y { flags = f }) e),
          ap (λ (y : Socket). y.sock_type) (g ∙ ap (λ (y : Socket). record y { flags = f }) e),
          ap (λ (y : Socket). y.flags.o_nonblock) g ∙ sym p,
          λ j d.
              store_other o.sockets fd j (record x { flags = f }) d
              ∙ store_other k.sockets fd j (new_socket family sock_stream) d,
        ))
        (λ p. (
          refl,
          ap (λ (y : Socket). y.family) e,
          ap (λ (y : Socket). y.sock_type) e,
          ap (λ (y : Socket). y.flags.o_nonblock) e ∙ sym p,
          λ j d. store_other k.sockets fd j (new_socket family sock_stream) d,
        ))

  -- A write to the socket that changes other fields.
  IsFresh-set_socket :
      (n : Kernel) (x : Socket)
      → IsFresh sys family k fd n
      → x.family ≡ (n.sockets fd).family
      → x.sock_type ≡ (n.sockets fd).sock_type
      → x.flags.o_nonblock ≡ (n.sockets fd).flags.o_nonblock
      → IsFresh sys family k fd (set_socket n fd x)
  IsFresh-set_socket n x (d, f, t, b, o) p q r =
      let e = store_same n.sockets fd x in
      (
        d,
        ap (λ (y : Socket). y.family) e ∙ p ∙ f,
        ap (λ (y : Socket). y.sock_type) e ∙ q ∙ t,
        ap (λ (y : Socket). y.flags.o_nonblock) e ∙ r ∙ b,
        λ j z. store_other n.sockets fd j x z ∙ o j z,
      )

  bind_listen-Listened :
      (port : ℕ) (n : Kernel)
      → IsFresh sys family k fd n
      → (n.sockets fd).reuse_port ≡ true
      → Listened sys family port k (bind_listen sys n fd port)
  unfolding bind_listen
  bind_listen-Listened port n f r =
      let x = record (n.sockets fd) { bound = some port } in
      let b = set_socket n fd x in
      let y = record (b.sockets fd) { listening = true } in
      let l = set_socket b fd y in
      let e = store_same n.sockets fd x in
      let g = store_same b.sockets fd y in
      let (d, p, q, z, o) =
        IsFresh-set_socket b y (IsFresh-set_socket n x f refl refl refl) refl refl refl in
      let gone = ap (remove fd) f.0 ∙ remove-head fd k.descriptors in
      if_both (Listened sys family port k) (not sys.bind) {x = (close_socket n fd, failed)} gone (
        if_both (Listened sys family port k) (not sys.listen) {x = (close_socket b fd, failed)}
          {y = (l, opened fd)} gone
          (
            d,
            (
              p,
              q,
              ap (λ (s : Socket). s.bound)
                  (g ∙ ap (λ (s : Socket). record s { listening = true }) e),
              ap (λ (s : Socket). s.listening) g,
              ap (λ (s : Socket). s.reuse_port)
                    (g ∙ ap (λ (s : Socket). record s { listening = true }) e)
                  ∙ r,
              z,
            ),
            o,
          ))

-- Whatever the system calls answer, a function that opens a listening socket either hands out a descriptor, which is
-- open, listens on the port, shares it, and is non-blocking where F_SETFL succeeded, with no other socket changed;
-- or returns -1, and what was open before is open; or ends the process, where SO_REUSEPORT is refused.
pub comm_fd_listenfd_setup_tcp-Listened :
    (sys : SocketCalls) (k : Kernel) (family : Family) (port : ℕ)
    → Listened sys family port k (comm_fd_listenfd_setup_tcp sys k family port)
unfolding comm_fd_listenfd_setup_tcp
comm_fd_listenfd_setup_tcp-Listened sys k family port =
    option_cases (Listened sys family port k) sys.socket (λ e. refl)
      λ fd e.
        (let n = (comm_fd_set_nonblocking sys (open_socket k fd family sock_stream) fd true).0 in
          let x = record (n.sockets fd) { reuse_port = true } in
          let s = set_socket n fd x in
          if_cases (Listened sys family port k) (not sys.reuse_port) {x = (n, exits)}
            (λ p. ground (arith, p))
            (λ p.
              bind_listen-Listened sys family k fd port s
                (IsFresh-set_socket sys family k fd n x (set_nonblocking-IsFresh sys family k fd)
                  refl refl refl)
                (ap (λ (y : Socket). y.reuse_port) (store_same n.sockets fd x))))
