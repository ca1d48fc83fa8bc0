-- ===== src/Comm/Histories.antt =====
-- What an owner of lib/libiapp/comm.c ever hears of its writes, over whole histories of a comm object.
use libiapp.Base.{
  ℕ, zero, suc, ◌≡◌, refl, ap, ◌∙◌, false, not, ◌||◌, Option, none, some, arith, if_both,
  list_cases, option_cases,
}
use mathlib.Core.Path.{subst}
use libiapp.Comm.State.{
  UdpFrame, Call, World, SysResult, got, would_block, interrupted, sys_error, comm_is_close_ready,
  comm_start_cleanup,
}
use libiapp.Comm.Handlers.{comm_cb_read, comm_cb_write}
use libiapp.Comm.Sockets.{free_events, comm_cb_cleanup}
use libiapp.Comm.Udp.{
  receive, udp_read_on, comm_cb_udp_read, sent, reprime, drain, send_loop, udp_write_on, disarm,
  closing_udp_write, comm_cb_udp_write,
}
use libiapp.Comm.Reach.{
  IsOwner, CommStep, calls, read_ready, read_event, write_ready, write_event, accept_event,
  connect_event, connect_start, udp_read_event, udp_write_event, cleans, CommReach, here, next,
}
use libiapp.Comm.Ledger.{count_calls}
use libiapp.Comm.WriteEnd.{is_completed, completions, ApiStep-calls, completions-comm_cb_write_cb}
use libiapp.Comm.Completed.{
  HasCompleted, start_cleanup-HasCompleted, closing_or-HasCompleted, deliver-HasCompleted,
  comm_cb_read_cb-HasCompleted, comm_cb_accept-HasCompleted, comm_cb_connect-HasCompleted,
  comm_cb_connect_start-HasCompleted,
}

-- What holds of the result, if the loop has one.
abbrev CompletedTo : ℕ → Option World → Type 0
CompletedTo n none = Unit {0}
CompletedTo n (some w) = HasCompleted n w

CompletedTo-map :
    {n : ℕ} (f : World → World) (r : Option World)
    → ((w : World) → HasCompleted n w → HasCompleted n (f w))
    → CompletedTo n r
    → CompletedTo n (elim r [ none ↦ none | some w ↦ some (f w) ])
CompletedTo-map f none h e = tt
CompletedTo-map f (some w) h e = h w e

CompletedTo-bind :
    {n : ℕ} (f : World → Option World) (r : Option World)
    → ((w : World) → HasCompleted n w → CompletedTo n (f w))
    → CompletedTo n r
    → CompletedTo n (elim r [ none ↦ none | some w ↦ f w ])
CompletedTo-bind f none h e = tt
CompletedTo-bind f (some w) h e = h w e

sent-is_completed :
    (cb : ℕ) (fr : UdpFrame) (r : SysResult) (k : Call)
    → sent cb fr r ≡ some k
    → is_completed k ≡ false
unfolding sent
sent-is_completed cb fr (got n) k e = ground arith
sent-is_completed cb fr (sys_error n) k e = ground arith
sent-is_completed cb fr (would_block n) k e = cc
sent-is_completed cb fr (interrupted n) k e = cc

module _ (owner : Call → World → World) (o : IsOwner owner) {n : ℕ} where
  receive-HasCompleted :
      (enomem : ℕ) (fr : Option UdpFrame) (res : SysResult) (w : World)
      → HasCompleted n w
      → HasCompleted n (receive owner enomem fr res w)
  unfolding receive
  receive-HasCompleted enomem none res w v = deliver-HasCompleted owner o _ _ refl v.count
  receive-HasCompleted enomem (some fr) (got m) w v = deliver-HasCompleted owner o _ _ refl v.count
  receive-HasCompleted enomem (some fr) (would_block e) w v =
      deliver-HasCompleted owner o _ _ refl v.count
  receive-HasCompleted enomem (some fr) (interrupted e) w v =
      deliver-HasCompleted owner o _ _ refl v.count
  receive-HasCompleted enomem (some fr) (sys_error e) w v =
      deliver-HasCompleted owner o _ _ refl v.count

  udp_read_on-HasCompleted :
      (enomem : ℕ) (alloc : ℕ → Option UdpFrame) (res : SysResult) (w : World)
      → HasCompleted n w
      → HasCompleted n (udp_read_on owner enomem alloc res w)
  unfolding udp_read_on
  udp_read_on-HasCompleted enomem alloc res w v =
      if_both (HasCompleted n) _ (receive-HasCompleted enomem _ res w v) v

  comm_cb_udp_read-HasCompleted :
      (enomem : ℕ) (alloc : ℕ → Option UdpFrame) (res : SysResult) (w : World)
      → HasCompleted n w
      → HasCompleted n (comm_cb_udp_read owner enomem alloc res w)
  unfolding comm_cb_udp_read
  comm_cb_udp_read-HasCompleted enomem alloc res w v =
      let c = deliver-HasCompleted owner o _ _ refl v.count in
      if_both (HasCompleted n) w.c.is_closing
        (closing_or-HasCompleted _ _ c (udp_read_on-HasCompleted enomem alloc res _ c))
        (udp_read_on-HasCompleted enomem alloc res w v)

  drain-HasCompleted :
      (fuel : ℕ) (w : World) → HasCompleted n w → CompletedTo n (drain owner fuel w)
  unfolding drain
  drain-HasCompleted zero w v = tt
  drain-HasCompleted (suc fuel) w v =
      list_cases (CompletedTo n) w.c.udp_w.w_q (λ e. v)
        (λ fr rest e. drain-HasCompleted fuel _ (deliver-HasCompleted owner o _ _ refl v.count))

  send_loop-HasCompleted :
      (sendto : ℕ → SysResult) (fuel m : ℕ) (w : World)
      → HasCompleted n w
      → CompletedTo n (send_loop owner sendto fuel m w)
  unfolding send_loop
  send_loop-HasCompleted sendto zero m w v = tt
  send_loop-HasCompleted sendto (suc fuel) m w v =
      list_cases (CompletedTo n) w.c.udp_w.w_q (λ e. v)
        λ fr rest e.
          option_cases (CompletedTo n) (sent w.c.udp_w.cb fr (sendto m)) (λ s. v)
            λ k s. send_loop-HasCompleted sendto fuel (suc m) _ (
              deliver-HasCompleted owner o _ _ (sent-is_completed w.c.udp_w.cb fr (sendto m) k s)
                v.count)

  reprime-HasCompleted : (w : World) → HasCompleted n w → HasCompleted n (reprime w)
  unfolding reprime
  reprime-HasCompleted w v =
      list_cases (HasCompleted n) w.c.udp_w.w_q (λ e. v) (λ fr rest e. record { count = v.count })

  udp_write_on-HasCompleted :
      (sendto : ℕ → SysResult) (fuel : ℕ) (w : World)
      → HasCompleted n w
      → CompletedTo n (udp_write_on owner sendto fuel w)
  unfolding udp_write_on
  udp_write_on-HasCompleted sendto fuel w v =
      let u = record w { c = record (w.c) { udp_w = record (w.c.udp_w) { is_primed = false } } } in
      if_both (CompletedTo n) (not w.c.udp_w.is_active || not w.c.udp_w.is_primed) {x = some w} v (
        CompletedTo-map reprime (send_loop owner sendto fuel 0 u) reprime-HasCompleted
          (send_loop-HasCompleted sendto fuel 0 u (record { count = v.count })))

  closing_udp_write-HasCompleted :
      (sendto : ℕ → SysResult) (fuel : ℕ) (w : World)
      → HasCompleted n w
      → CompletedTo n (closing_udp_write owner sendto fuel w)
  unfolding closing_udp_write disarm
  closing_udp_write-HasCompleted sendto fuel w v =
      let d : HasCompleted n (disarm w) = record { count = v.count } in
      if_both (CompletedTo n) (comm_is_close_ready (disarm w).c)
        {x = some (comm_start_cleanup (disarm w))} {y = udp_write_on owner sendto fuel (disarm w)}
        (start_cleanup-HasCompleted _ d) (udp_write_on-HasCompleted sendto fuel _ d)

  comm_cb_udp_write-HasCompleted :
      (sendto : ℕ → SysResult) (fuel : ℕ) (w : World)
      → HasCompleted n w
      → CompletedTo n (comm_cb_udp_write owner sendto fuel w)
  unfolding comm_cb_udp_write
  comm_cb_udp_write-HasCompleted sendto fuel w v =
      if_both (CompletedTo n) w.c.is_closing
        (CompletedTo-bind (closing_udp_write owner sendto fuel) (drain owner fuel w)
          (closing_udp_write-HasCompleted sendto fuel) (drain-HasCompleted fuel w v))
        (udp_write_on-HasCompleted sendto fuel w v)

  shut-HasCompleted : (w : World) → HasCompleted n w → HasCompleted n (record w { fd_open = false })
  shut-HasCompleted w v = record { count = v.count }

  free_events-HasCompleted : (w : World) → HasCompleted n w → HasCompleted n (free_events w)
  unfolding free_events
  free_events-HasCompleted w v = record { count = v.count }

  comm_cb_cleanup-HasCompleted :
      (w : World) → HasCompleted n w → HasCompleted n (comm_cb_cleanup owner w)
  unfolding comm_cb_cleanup
  comm_cb_cleanup-HasCompleted w v =
      let told =
        option_cases (HasCompleted n) w.c.close_cb (λ e. v)
          (λ cb e. deliver-HasCompleted owner o _ _ refl v.count) in
      free_events-HasCompleted _ (if_both (HasCompleted n) _ (shut-HasCompleted _ told) told)

  CommStep-HasCompleted : {w u : World} → CommStep owner w u → HasCompleted n w → HasCompleted n u
  unfolding comm_cb_read comm_cb_write
  CommStep-HasCompleted {w} (calls s) v = record {
    count = ap (count_calls is_completed) (ApiStep-calls s) ∙ v.count;
  }
  CommStep-HasCompleted {w} read_ready v = record { count = ground (arith, v.count) }
  CommStep-HasCompleted {w} (read_event read) v = comm_cb_read_cb-HasCompleted owner o read w v
  CommStep-HasCompleted {w} write_ready v = record { count = ground (arith, v.count) }
  CommStep-HasCompleted {w} (write_event write h) v = record {
    count = completions-comm_cb_write_cb owner o write w ∙ v.count;
  }
  CommStep-HasCompleted {w} (accept_event fds e) v = comm_cb_accept-HasCompleted owner o fds e w v
  CommStep-HasCompleted {w} (connect_event x) v = comm_cb_connect-HasCompleted owner o x w v
  CommStep-HasCompleted {w} (connect_start x) v = comm_cb_connect_start-HasCompleted owner o x w v
  CommStep-HasCompleted {w} (udp_read_event enomem alloc res) v =
      comm_cb_udp_read-HasCompleted enomem alloc res w v
  CommStep-HasCompleted {w} (udp_write_event sendto fuel {v = u} e) v =
      subst (CompletedTo n) e (comm_cb_udp_write-HasCompleted sendto fuel w v)
  CommStep-HasCompleted {w} cleans v = comm_cb_cleanup-HasCompleted w v

module _ (owner : Call → World → World) (o : IsOwner owner) where
  -- Whatever happens to a comm object, in any order of calls and handlers and whatever the system calls
  -- return, no write is ever reported as completed that was not so at the start.
  pub completions-CommReach : {w u : World} → CommReach owner w u → completions u ≡ completions w
  completions-CommReach here = refl
  completions-CommReach (next r s) =
      (CommStep-HasCompleted owner o s (record { count = completions-CommReach r })).count
