-- ===== src/Comm/Wired.antt =====
-- The calls of lib/libiapp/comm.h, and what they do to the event loop.
use libiapp.Base.{ℕ, refl, true, not, ◌||◌, ◌+◌, [], ◌∷◌, ◌++◌, ℤ, arith, ltb, leb, if_both, has}
use libiapp.Comm.State.{UdpFrame, World, set_co, set_udp_r, set_udp_w, comm_is_close_ready}
use libiapp.Comm.Api.{
  comm_mark_nonclose, comm_close, close_read, close_write, begin_read, register_read, comm_read,
  set_buffer, register_write, begin_write, comm_write, comm_listen, comm_connect, comm_udp_read,
  comm_udp_write_setup, comm_udp_write,
}
use libiapp.Comm.Reach.{
  ApiStep, marks, closes, reads, writes, listens, connects, udp_reads, udp_sets_up, udp_writes, Api,
  done, and_then,
}
use libiapp.Comm.Wiring.{
  IsWired, Link, Link-trans, Link-IsWired, aside, add-Link, stay, close_read-Link, close_write-Link,
  comm_start_cleanup-Link, register_read-Link, read_if_ready-Link, register_write-Link,
  write_if_ready-Link,
}

-- One step, then another from where the first one ends.
pub onward : {w v u : World} → IsWired w → Link w v → (IsWired v → Link v u) → Link w u
onward v p q = Link-trans p (q (Link-IsWired v p))

module _ (w : World) (v : IsWired w) where
  comm_close-Link : Link w (comm_close w)
  unfolding comm_close
  comm_close-Link =
      let b : World = record w { c = record (w.c) { is_closing = true } } in
      let closed : Link w (close_write (close_read b)) =
        onward {v = close_read b} v (Link-trans {v = b} (aside refl refl) (close_read-Link b v))
          (close_write-Link (close_read b)) in
      if_both (Link w) w.c.is_closing stay (
        if_both (Link w) (not (comm_is_close_ready (close_write (close_read b)).c)) closed
          (onward v closed (comm_start_cleanup-Link (close_write (close_read b)))))

  comm_read-Link : (buf len cb : ℕ) → Link w (comm_read w buf len cb).0
  unfolding comm_read begin_read
  comm_read-Link buf len cb =
      let b = begin_read w buf len cb in
      if_both (λ (r : World × ℤ). Link w r.0) w.c.r.is_active stay
        (onward {v = register_read b} v
          (Link-trans {v = b} (aside refl refl) (register_read-Link b v))
          (read_if_ready-Link (register_read b)))

  comm_write-Link : (nb start len cb : ℕ) → Link w (comm_write w nb start len cb).0
  unfolding comm_write set_buffer begin_write
  comm_write-Link nb start len cb =
      let b = set_buffer w nb start len cb in
      let e = begin_write (register_write b) in
      if_both (λ (r : World × ℤ). Link w r.0) w.c.w.is_active stay
        (onward {v = e} v
          (Link-trans {v = register_write b}
            (Link-trans {v = b} (aside refl refl) (register_write-Link b v)) (aside refl refl))
          (write_if_ready-Link e))

  comm_listen-Link : (cb : ℕ) → Link w (comm_listen w cb).0
  unfolding comm_listen has
  comm_listen-Link cb =
      if_both (λ (r : World × ℤ). Link w r.0) w.c.a.is_active stay
        (Link-trans (add-Link w v w.c.ev_accept (ground arith)) (aside refl refl))

  comm_connect-Link : (limit sin slen cb : ℕ) → Link w (comm_connect limit w sin slen cb).0
  unfolding comm_connect has
  comm_connect-Link limit sin slen cb =
      let u = set_co w (record { is_active = true; cb = cb; sin = sin; slen = slen }) in
      if_both (λ (r : World × ℤ). Link w r.0) (w.c.co.is_active || ltb limit slen) stay
        (Link-trans {v = u} (aside refl refl) (add-Link u v w.c.ev_connect_start (ground arith)))

  comm_udp_read-Link : (cb maxlen : ℕ) → Link w (comm_udp_read w cb maxlen).0
  unfolding comm_udp_read has
  comm_udp_read-Link cb maxlen =
      let u = set_udp_r w (record { is_active = true; cb = cb; maxlen = maxlen }) in
      if_both (λ (r : World × ℤ). Link w r.0) w.c.udp_r.is_active stay
        (Link-trans {v = u} (aside refl refl) (add-Link u v w.c.ev_udp_read (ground arith)))

  comm_udp_write_setup-Link : (cb qlen : ℕ) → Link w (comm_udp_write_setup w cb qlen).0
  unfolding comm_udp_write_setup
  comm_udp_write_setup-Link cb qlen =
      if_both (λ (r : World × ℤ). Link w r.0) w.c.udp_w.is_active stay (aside refl refl)

  comm_udp_write-Link : (fr : UdpFrame) → Link w (comm_udp_write w fr).0
  unfolding comm_udp_write has
  comm_udp_write-Link fr =
      let s = w.c.udp_w in
      let u = set_udp_w w (record s { w_q = s.w_q ++ fr ∷ []; qlen = s.qlen + 1 }) in
      let q = set_udp_w u (record (u.c.udp_w) { is_primed = true }) in
      if_both (λ (r : World × ℤ). Link w r.0) (not s.is_active || w.c.is_closing) stay
        (if_both (λ (r : World × ℤ). Link w r.0) (leb s.max_qlen s.qlen) stay
          (if_both (Link w) s.is_primed (aside refl refl)
            (Link-trans {v = q} (aside refl refl) (add-Link q v w.c.ev_udp_write (ground arith)))))

pub ApiStep-Link : {w u : World} → ApiStep w u → IsWired w → Link w u
unfolding comm_mark_nonclose
ApiStep-Link marks v = aside refl refl
ApiStep-Link {w} closes v = comm_close-Link w v
ApiStep-Link {w} (reads buf len cb) v = comm_read-Link w v buf len cb
ApiStep-Link {w} (writes nb start len cb) v = comm_write-Link w v nb start len cb
ApiStep-Link {w} (listens cb) v = comm_listen-Link w v cb
ApiStep-Link {w} (connects limit sin slen cb) v = comm_connect-Link w v limit sin slen cb
ApiStep-Link {w} (udp_reads cb maxlen) v = comm_udp_read-Link w v cb maxlen
ApiStep-Link {w} (udp_sets_up cb qlen) v = comm_udp_write_setup-Link w v cb qlen
ApiStep-Link {w} (udp_writes fr) v = comm_udp_write-Link w v fr

-- Any sequence of calls of comm.h on an object whose events are allocated moves the event loop only by
-- calls of fde.h on allocated events; it allocates and frees no event, and the object keeps its ten.
pub Api-Link : {w u : World} → Api w u → IsWired w → Link w u
Api-Link done v = stay
Api-Link (and_then a s) v = onward v (Api-Link a v) (ApiStep-Link s)
