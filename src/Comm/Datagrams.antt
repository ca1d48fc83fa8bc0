-- ===== src/Comm/Datagrams.antt =====
-- The datagram handlers of lib/libiapp/comm.c, the histories of a comm object, and its invariant.
use libiapp.Base.{
  ℕ, zero, suc, ◌≡◌, false, not, ◌||◌, Option, none, some, [], arith, if_both, list_cases,
  option_cases,
}
use mathlib.Core.Path.{subst}
use libiapp.Comm.State.{
  UdpFrame, Call, World, SysResult, got, would_block, interrupted, sys_error, comm_is_close_ready,
  comm_start_cleanup,
}
use libiapp.Comm.Handlers.{comm_cb_read, comm_cb_write}
use libiapp.Comm.Sockets.{free_events, comm_cb_cleanup}
use libiapp.Comm.Udp.{
  receive, udp_read_on, comm_cb_udp_read, sent, reprime, drain, send_loop, udp_write_on, disarm,
  comm_cb_udp_write,
}
use libiapp.Comm.Reach.{
  IsOwner, CommStep, calls, read_ready, read_event, write_ready, write_event, accept_event,
  connect_event, connect_start, udp_read_event, udp_write_event, cleans, CommReach, here, next,
}
use libiapp.Comm.Ledger.{
  is_read_done, is_write_done, is_read_answer, is_write_answer, IsConsistent,
  comm_start_cleanup-IsConsistent, ApiStep-IsConsistent,
}
use libiapp.Comm.Books.{
  closing_or-IsConsistent, deliver-IsConsistent, comm_cb_read_cb-IsConsistent,
  comm_cb_write_cb-IsConsistent, comm_cb_accept-IsConsistent, comm_cb_connect-IsConsistent,
  comm_cb_connect_start-IsConsistent,
}

-- What holds of the result, if the loop has one.
abbrev Ends {ℓ} : (World → Type ℓ) → Option World → Type ℓ
Ends P none = Unit
Ends P (some w) = P w

Ends-map :
    (f : World → World) (r : Option World)
    → ((w : World) → IsConsistent w → IsConsistent (f w))
    → Ends IsConsistent r
    → Ends IsConsistent (elim r [ none ↦ none | some w ↦ some (f w) ])
Ends-map f none h e = tt
Ends-map f (some w) h e = h w e

Ends-bind {ℓ} :
    {P : World → Type ℓ} (f : World → Option World) (r : Option World)
    → ((w : World) → P w → Ends IsConsistent (f w))
    → Ends P r
    → Ends IsConsistent (elim r [ none ↦ none | some w ↦ f w ])
Ends-bind f none h e = tt
Ends-bind f (some w) h e = h w e

-- A datagram's answer is in no book.
sent-other :
    (cb : ℕ) (fr : UdpFrame) (r : SysResult) (k : Call)
    → sent cb fr r ≡ some k
    → (is_read_done k ≡ false)
      × (is_write_done k ≡ false)
      × (is_read_answer k ≡ false)
      × (is_write_answer k ≡ false)
unfolding sent
sent-other cb fr (got n) k e = ground arith
sent-other cb fr (sys_error n) k e = ground arith
sent-other cb fr (would_block n) k e = cc
sent-other cb fr (interrupted n) k e = cc

reprime-IsConsistent : (w : World) → IsConsistent w → IsConsistent (reprime w)
unfolding reprime
reprime-IsConsistent w v =
    list_cases IsConsistent w.c.udp_w.w_q (λ e. v) (λ fr rest e. ground arith)

disarm-IsConsistent : (w : World) → IsConsistent w → w.c.udp_w.w_q ≡ [] → IsConsistent (disarm w)
unfolding disarm
disarm-IsConsistent w v e = ground arith

shut-IsConsistent : (w : World) → IsConsistent w → IsConsistent (record w { fd_open = false })
shut-IsConsistent w v = ground arith

module _ (owner : Call → World → World) (o : IsOwner owner) where
  drain-IsConsistent :
      (fuel : ℕ) (w : World)
      → IsConsistent w
      → Ends (λ u. IsConsistent u × (u.c.udp_w.w_q ≡ [])) (drain owner fuel w)
  unfolding drain
  drain-IsConsistent zero w v = tt
  drain-IsConsistent (suc fuel) w v =
      list_cases (Ends (λ u. IsConsistent u × (u.c.udp_w.w_q ≡ []))) w.c.udp_w.w_q (λ e. (v, e))
        (λ fr rest e. drain-IsConsistent fuel _ (deliver-IsConsistent owner o _ _ (ground arith)))

  send_loop-IsConsistent :
      (sendto : ℕ → SysResult) (fuel n : ℕ) (w : World)
      → IsConsistent w
      → Ends IsConsistent (send_loop owner sendto fuel n w)
  unfolding send_loop
  send_loop-IsConsistent sendto zero n w v = tt
  send_loop-IsConsistent sendto (suc fuel) n w v =
      list_cases (Ends IsConsistent) w.c.udp_w.w_q (λ e. v)
        λ fr rest e.
          option_cases (Ends IsConsistent) (sent w.c.udp_w.cb fr (sendto n)) (λ s. v)
            λ k s. send_loop-IsConsistent sendto fuel (suc n) _ (
              deliver-IsConsistent owner o _ _
                (ground (arith, sent-other w.c.udp_w.cb fr (sendto n) k s)))

  udp_write_on-IsConsistent :
      (sendto : ℕ → SysResult) (fuel : ℕ) (w : World)
      → IsConsistent w
      → Ends IsConsistent (udp_write_on owner sendto fuel w)
  unfolding udp_write_on
  udp_write_on-IsConsistent sendto fuel w v =
      let u = record w { c = record (w.c) { udp_w = record (w.c.udp_w) { is_primed = false } } } in
      let unprimed : IsConsistent u = ground arith in
      if_both (Ends IsConsistent) (not w.c.udp_w.is_active || not w.c.udp_w.is_primed) {x = some w}
        v
        (Ends-map reprime (send_loop owner sendto fuel 0 u) reprime-IsConsistent
          (send_loop-IsConsistent sendto fuel 0 u unprimed))

  comm_cb_udp_write-IsConsistent :
      (sendto : ℕ → SysResult) (fuel : ℕ) (w : World)
      → IsConsistent w
      → Ends IsConsistent (comm_cb_udp_write owner sendto fuel w)
  unfolding comm_cb_udp_write
  comm_cb_udp_write-IsConsistent sendto fuel w v =
      if_both (Ends IsConsistent) w.c.is_closing
        (Ends-bind _ (drain owner fuel w)
          (λ u (c, e).
            if_both (Ends IsConsistent) (comm_is_close_ready (disarm u).c)
              {x = some (comm_start_cleanup (disarm u))}
              {y = udp_write_on owner sendto fuel (disarm u)}
              (comm_start_cleanup-IsConsistent _ (disarm-IsConsistent u c e))
              (udp_write_on-IsConsistent sendto fuel _ (disarm-IsConsistent u c e)))
          (drain-IsConsistent fuel w v))
        (udp_write_on-IsConsistent sendto fuel w v)

  module _ (enomem : ℕ) where
    receive-IsConsistent :
        (fr : Option UdpFrame) (res : SysResult) (w : World)
        → IsConsistent w
        → IsConsistent (receive owner enomem fr res w)
    unfolding receive
    receive-IsConsistent none res w v = deliver-IsConsistent owner o _ _ (ground arith)
    receive-IsConsistent (some fr) (got n) w v = deliver-IsConsistent owner o _ _ (ground arith)
    receive-IsConsistent (some fr) (would_block e) w v =
        deliver-IsConsistent owner o _ _ (ground arith)
    receive-IsConsistent (some fr) (interrupted e) w v =
        deliver-IsConsistent owner o _ _ (ground arith)
    receive-IsConsistent (some fr) (sys_error e) w v =
        deliver-IsConsistent owner o _ _ (ground arith)

    udp_read_on-IsConsistent :
        (alloc : ℕ → Option UdpFrame) (res : SysResult) (w : World)
        → IsConsistent w
        → IsConsistent (udp_read_on owner enomem alloc res w)
    unfolding udp_read_on
    udp_read_on-IsConsistent alloc res w v =
        if_both IsConsistent _ (receive-IsConsistent _ res w v) v

    comm_cb_udp_read-IsConsistent :
        (alloc : ℕ → Option UdpFrame) (res : SysResult) (w : World)
        → IsConsistent w
        → IsConsistent (comm_cb_udp_read owner enomem alloc res w)
    unfolding comm_cb_udp_read
    comm_cb_udp_read-IsConsistent alloc res w v =
        let closed = deliver-IsConsistent owner o _ _ (ground arith) in
        if_both IsConsistent w.c.is_closing
          (closing_or-IsConsistent _ _ closed (udp_read_on-IsConsistent alloc res _ closed))
          (udp_read_on-IsConsistent alloc res w v)

  free_events-IsConsistent : (w : World) → IsConsistent w → IsConsistent (free_events w)
  unfolding free_events
  free_events-IsConsistent w v = ground arith

  comm_cb_cleanup-IsConsistent :
      (w : World) → IsConsistent w → IsConsistent (comm_cb_cleanup owner w)
  unfolding comm_cb_cleanup
  comm_cb_cleanup-IsConsistent w v =
      let told =
        option_cases IsConsistent w.c.close_cb (λ e. v)
          (λ cb e. deliver-IsConsistent owner o _ _ (ground arith)) in
      free_events-IsConsistent _ (if_both IsConsistent _ (shut-IsConsistent _ told) told)

  CommStep-IsConsistent : {w u : World} → CommStep owner w u → IsConsistent w → IsConsistent u
  unfolding comm_cb_read comm_cb_write
  CommStep-IsConsistent {w} (calls s) v = ApiStep-IsConsistent s v
  CommStep-IsConsistent {w} read_ready v = ground arith
  CommStep-IsConsistent {w} (read_event read) v = comm_cb_read_cb-IsConsistent owner o read w v
  CommStep-IsConsistent {w} write_ready v = ground arith
  CommStep-IsConsistent {w} (write_event write h) v =
      comm_cb_write_cb-IsConsistent owner o write w h v
  CommStep-IsConsistent {w} (accept_event fds e) v = comm_cb_accept-IsConsistent owner o fds e w v
  CommStep-IsConsistent {w} (connect_event x) v = comm_cb_connect-IsConsistent owner o x w v
  CommStep-IsConsistent {w} (connect_start x) v = comm_cb_connect_start-IsConsistent owner o x w v
  CommStep-IsConsistent {w} (udp_read_event enomem alloc res) v =
      comm_cb_udp_read-IsConsistent enomem alloc res w v
  CommStep-IsConsistent {w} (udp_write_event sendto fuel {v = u} e) v =
      subst (Ends IsConsistent) e (comm_cb_udp_write-IsConsistent sendto fuel w v)
  CommStep-IsConsistent {w} cleans v = comm_cb_cleanup-IsConsistent w v

  -- From a state whose books are right, whatever the owner calls, in its callbacks and outside,
  -- whatever the system calls return and in whatever order the handlers run, the books stay right:
  -- the reads that were accepted are at most the callbacks about a read and the one in progress, and at
  -- least those callbacks about a read that are not for closing and the one in progress, and so for writes;
  -- the datagram queue has the length that it says, stays within its limit and is empty before it is
  -- set up, the write offset stays within the buffer, and a cleanup is scheduled only while closing;
  -- provided that write(2) writes no more than it is asked to.
  pub CommReach-IsConsistent : {w u : World} → CommReach owner w u → IsConsistent w → IsConsistent u
  CommReach-IsConsistent here v = v
  CommReach-IsConsistent (next r s) v = CommStep-IsConsistent s (CommReach-IsConsistent r v)
