-- ===== src/Comm/Moved.antt =====
-- The handlers of lib/libiapp/comm.c for accepts and connects, and what all handlers of streams do to
-- the event loop.
use libiapp.Base.{ℕ, refl, false, List, [], ◌∷◌, arith, pos, if_both, has}
use libiapp.Fde.CallbackPass.{IsReady, Reach-IsReady}
use libiapp.Comm.State.{
  Call, completed, closing, accept_done, connect_done, World, SysResult, add_event, set_a, set_co,
}
use libiapp.Comm.Handlers.{deliver, comm_cb_read, comm_cb_read_cb, comm_cb_write, comm_cb_write_cb}
use libiapp.Comm.Sockets.{
  AcceptError, again, other, ConnectProgress, in_progress, connected, refused, accept_loop,
  accept_end, accept_on, comm_cb_accept, comm_cb_connect, connect_on, comm_cb_connect_start,
}
use libiapp.Comm.Reach.{IsOwner}
use libiapp.Comm.Wiring.{IsWired, Link, Link-trans, aside, add-Link, stay}
use libiapp.Comm.Wired.{onward}
use libiapp.Comm.Handled.{
  comm_cb_read-Link, comm_cb_write-Link, closing_or-Link, deliver-Link, comm_cb_read_cb-Link,
  comm_cb_write_cb-Link,
}

module _ (owner : Call → World → World) (o : IsOwner owner) where
  accept_loop-Link : (fds : List ℕ) (w : World) → IsWired w → Link w (accept_loop owner fds w)
  unfolding accept_loop
  accept_loop-Link [] w v = stay
  accept_loop-Link (fd ∷ rest) w v =
      onward {v = deliver owner (accept_done w.c.a.cb completed (pos fd) 0) w} v
        (deliver-Link owner o _ w v) (accept_loop-Link rest _)

  accept_end-Link : (e : AcceptError) (w : World) → IsWired w → Link w (accept_end owner e w)
  unfolding accept_end has
  accept_end-Link again w v = add-Link w v w.c.ev_accept (ground arith)
  accept_end-Link (other e) w v =
      onward {v = add_event w.c.ev_accept w} v (add-Link w v w.c.ev_accept (ground arith))
        (deliver-Link owner o _ _)

  accept_on-Link :
      (fds : List ℕ) (e : AcceptError) (w : World) → IsWired w → Link w (accept_on owner fds e w)
  unfolding accept_on
  accept_on-Link fds e w v =
      if_both (Link w) w.c.a.is_active
        (onward {v = accept_loop owner fds w} v (accept_loop-Link fds w v) (accept_end-Link e _))
        stay

  comm_cb_accept-Link :
      (fds : List ℕ) (e : AcceptError) (w : World)
      → IsWired w
      → Link w (comm_cb_accept owner fds e w)
  unfolding comm_cb_accept
  comm_cb_accept-Link fds e w v =
      let b = set_a w (record (w.c.a) { is_active = false }) in
      let u = deliver owner (accept_done w.c.a.cb closing (pos 0) 0) b in
      if_both (Link w) w.c.is_closing
        (closing_or-Link u (accept_on owner fds e u) v
          (Link-trans {v = b} (aside refl refl) (deliver-Link owner o _ b v))
          (accept_on-Link fds e u))
        (accept_on-Link fds e w v)

  comm_cb_connect-Link :
      (x : ConnectProgress) (w : World) → IsWired w → Link w (comm_cb_connect owner x w)
  unfolding comm_cb_connect has
  comm_cb_connect-Link in_progress w v = add-Link w v w.c.ev_connect (ground arith)
  comm_cb_connect-Link connected w v =
      let u = set_co w (record (w.c.co) { is_active = false }) in
      Link-trans {v = u} (aside refl refl) (deliver-Link owner o _ u v)
  comm_cb_connect-Link (refused e) w v =
      let u = set_co w (record (w.c.co) { is_active = false }) in
      Link-trans {v = u} (aside refl refl) (deliver-Link owner o _ u v)

  connect_on-Link : (x : ConnectProgress) (w : World) → IsWired w → Link w (connect_on owner x w)
  unfolding connect_on
  connect_on-Link x w v = if_both (Link w) w.c.co.is_active (comm_cb_connect-Link x w v) stay

  comm_cb_connect_start-Link :
      (x : ConnectProgress) (w : World) → IsWired w → Link w (comm_cb_connect_start owner x w)
  unfolding comm_cb_connect_start
  comm_cb_connect_start-Link x w v =
      let b = set_co w (record (w.c.co) { is_active = false }) in
      let u = deliver owner (connect_done w.c.co.cb closing 0) b in
      if_both (Link w) w.c.is_closing
        (closing_or-Link u (connect_on owner x u) v
          (Link-trans {v = b} (aside refl refl) (deliver-Link owner o _ b v)) (connect_on-Link x u))
        (connect_on-Link x w v)

  -- Each handler of the streams, run on an object whose events are allocated, over a loop that is
  -- ready for its next pass, leaves the loop ready for its next pass; whatever the system calls
  -- return and whatever the owner calls from its callbacks.
  stream_handlers-IsReady :
      (w : World)
      → IsWired w
      → IsReady w.fh
      → IsReady (comm_cb_read w).fh
        × IsReady (comm_cb_write w).fh
        × ((read : ℕ → ℕ → SysResult) → IsReady (comm_cb_read_cb owner read w).fh)
        × ((write : ℕ → ℕ → ℕ → SysResult) → IsReady (comm_cb_write_cb owner write w).fh)
        × ((fds : List ℕ) (e : AcceptError) → IsReady (comm_cb_accept owner fds e w).fh)
        × ((x : ConnectProgress) → IsReady (comm_cb_connect owner x w).fh)
        × ((x : ConnectProgress) → IsReady (comm_cb_connect_start owner x w).fh)
  stream_handlers-IsReady w v r = (
    Reach-IsReady (comm_cb_read-Link w v).moved r,
    Reach-IsReady (comm_cb_write-Link w v).moved r,
    λ read. Reach-IsReady (comm_cb_read_cb-Link owner o read w v).moved r,
    λ write. Reach-IsReady (comm_cb_write_cb-Link owner o write w v).moved r,
    λ fds e. Reach-IsReady (comm_cb_accept-Link fds e w v).moved r,
    λ x. Reach-IsReady (comm_cb_connect-Link x w v).moved r,
    λ x. Reach-IsReady (comm_cb_connect_start-Link x w v).moved r,
  )
