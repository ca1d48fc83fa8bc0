-- ===== src/Comm/Sockets.antt =====
-- lib/libiapp/comm.c: accepting and connecting, and the end of a comm object.
use libiapp.Base.{ℕ, true, false, none, some, List, [], ◌∷◌, pos, minus_one, if◌then◌else◌}
use libiapp.Fde.Register.{fde_free}
use libiapp.Comm.State.{
  completed, closing, error, FdeComm, Call, accept_done, connect_done, close_done, World, add_event,
  set_a, set_co,
}
use libiapp.Comm.Handlers.{deliver, closing_or}

-- The error of an accept(2) that ends the loop.
pub data AcceptError : Type 0 where
  again : AcceptError
  other : ℕ → AcceptError

-- What getsockopt(SO_ERROR) says of a connection: still in progress, done, or failed with an error
-- number, its own or the socket's.
pub data ConnectProgress : Type 0 where
  in_progress : ConnectProgress
  connected : ConnectProgress
  refused : ℕ → ConnectProgress

-- The frees at the end of comm_cb_cleanup.
unfoldable pub free_events : World → World
free_events w = record w {
  fh =
      fde_free
        (fde_free
          (fde_free
            (fde_free
              (fde_free
                (fde_free
                  (fde_free (fde_free (fde_free (fde_free w.fh c.ev_read) c.ev_read_cb) c.ev_write)
                    c.ev_write_cb)
                  c.ev_accept)
                c.ev_connect)
              c.ev_connect_start)
            c.ev_cleanup)
          c.ev_udp_read)
        c.ev_udp_write;
  freed = true;
}
  where
    c : FdeComm
    c = w.c

module _ (owner : Call → World → World) where
  -- The `while` of comm_cb_accept over the descriptors that accept(2) returns before its error.
  unfoldable pub accept_loop : List ℕ → World → World
  unfolding deliver
  accept_loop [] w = w
  accept_loop (newfd ∷ rest) w =
      accept_loop rest (deliver owner (accept_done w.c.a.cb completed (pos newfd) 0) w)

  -- The end of comm_cb_accept: the event is registered again; a lasting error is reported.
  unfoldable pub accept_end : AcceptError → World → World
  unfolding deliver
  accept_end again w = add_event w.c.ev_accept w
  accept_end (other e) w =
      let v = add_event w.c.ev_accept w in deliver owner (accept_done v.c.a.cb error minus_one e) v

  -- comm_cb_accept behind its closing branch.
  unfoldable pub accept_on : List ℕ → AcceptError → World → World
  unfolding accept_loop accept_end
  accept_on fds e w = if w.c.a.is_active then accept_end e (accept_loop fds w) else w

  -- comm_cb_accept.
  unfoldable pub comm_cb_accept : List ℕ → AcceptError → World → World
  unfolding accept_on deliver closing_or
  comm_cb_accept fds e w =
      let v = set_a w (record (w.c.a) { is_active = false }) in
      let u = deliver owner (accept_done v.c.a.cb closing (pos 0) 0) v in
      if w.c.is_closing then closing_or u (accept_on fds e u) else accept_on fds e w

  -- comm_cb_connect.
  unfoldable pub comm_cb_connect : ConnectProgress → World → World
  unfolding deliver
  comm_cb_connect in_progress w = add_event w.c.ev_connect w
  comm_cb_connect connected w =
      let v = set_co w (record (w.c.co) { is_active = false }) in
      deliver owner (connect_done v.c.co.cb completed 0) v
  comm_cb_connect (refused e) w =
      let v = set_co w (record (w.c.co) { is_active = false }) in
      deliver owner (connect_done v.c.co.cb error e) v

  -- comm_cb_connect_start behind its closing branch; the argument is the result of connect(2).
  unfoldable pub connect_on : ConnectProgress → World → World
  unfolding comm_cb_connect
  connect_on x w = if w.c.co.is_active then comm_cb_connect x w else w

  -- comm_cb_connect_start.
  unfoldable pub comm_cb_connect_start : ConnectProgress → World → World
  unfolding connect_on deliver closing_or
  comm_cb_connect_start x w =
      let v = set_co w (record (w.c.co) { is_active = false }) in
      let u = deliver owner (connect_done v.c.co.cb closing 0) v in
      if w.c.is_closing then closing_or u (connect_on x u) else connect_on x w

  -- comm_cb_cleanup.
  unfoldable pub comm_cb_cleanup : World → World
  unfolding free_events deliver
  comm_cb_cleanup w =
      let v : World = elim w.c.close_cb [ none ↦ w | some cb ↦ deliver owner (close_done cb) w ] in
      free_events (if v.c.do_close then record v { fd_open = false } else v)
