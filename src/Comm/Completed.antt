-- ===== src/Comm/Completed.antt =====
-- The handlers of lib/libiapp/comm.c for streams, and how many writes were reported as completed.
use libiapp.Base.{ℕ, zero, suc, ◌≡◌, refl, ap, ◌∙◌, false, List, [], ◌∷◌, if_both}
use libiapp.Comm.State.{
  Call, World, SysResult, got, would_block, interrupted, sys_error, comm_start_cleanup,
}
use libiapp.Comm.Handlers.{
  closing_or, reset_read, deliver, read_result, read_on, closing_read, comm_cb_read_cb,
}
use libiapp.Comm.Sockets.{
  AcceptError, again, other, ConnectProgress, in_progress, connected, refused, accept_loop,
  accept_end, accept_on, comm_cb_accept, comm_cb_connect, connect_on, comm_cb_connect_start,
}
use libiapp.Comm.Reach.{IsOwner}
use libiapp.Comm.Ledger.{count_calls}
use libiapp.Comm.WriteEnd.{is_completed, completions, comm_start_cleanup-calls, completions-deliver}

-- So many writes were reported as completed.
pub record HasCompleted (n : ℕ) (w : World) : Type 0 where
  pub count : completions w ≡ n

pub start_cleanup-HasCompleted :
    {n : ℕ} (w : World) → HasCompleted n w → HasCompleted n (comm_start_cleanup w)
start_cleanup-HasCompleted w v = record {
  count = ap (count_calls is_completed) (comm_start_cleanup-calls w) ∙ v.count;
}

reset_read-HasCompleted : {n : ℕ} (w : World) → HasCompleted n w → HasCompleted n (reset_read w)
unfolding reset_read
reset_read-HasCompleted w v = record { count = v.count }

pub closing_or-HasCompleted :
    {n : ℕ} (w u : World) → HasCompleted n w → HasCompleted n u → HasCompleted n (closing_or w u)
unfolding closing_or
closing_or-HasCompleted {n} w u v k = if_both (HasCompleted n) _ (start_cleanup-HasCompleted w v) k

module _ (owner : Call → World → World) (o : IsOwner owner) {n : ℕ} where
  pub deliver-HasCompleted :
      (k : Call) (w : World)
      → is_completed k ≡ false
      → completions w ≡ n
      → HasCompleted n (deliver owner k w)
  deliver-HasCompleted k w e q = record { count = completions-deliver owner o k w e ∙ q }

  read_result-HasCompleted :
      (res : SysResult) (w : World) → HasCompleted n w → HasCompleted n (read_result owner res w)
  unfolding read_result reset_read
  read_result-HasCompleted (would_block e) w v = v
  read_result-HasCompleted (got zero) w v = deliver-HasCompleted _ _ refl v.count
  read_result-HasCompleted (got (suc m)) w v = deliver-HasCompleted _ _ refl v.count
  read_result-HasCompleted (interrupted e) w v = deliver-HasCompleted _ _ refl v.count
  read_result-HasCompleted (sys_error e) w v = deliver-HasCompleted _ _ refl v.count

  read_on-HasCompleted :
      (read : ℕ → ℕ → SysResult) (w : World)
      → HasCompleted n w
      → HasCompleted n (read_on owner read w)
  unfolding read_on
  read_on-HasCompleted read w v =
      if_both (HasCompleted n) w.c.r.is_active (read_result-HasCompleted _ w v)
        (reset_read-HasCompleted w v)

  closing_read-HasCompleted : (w : World) → HasCompleted n w → HasCompleted n (closing_read owner w)
  unfolding closing_read
  closing_read-HasCompleted w v = reset_read-HasCompleted _ (deliver-HasCompleted _ _ refl v.count)

  pub comm_cb_read_cb-HasCompleted :
      (read : ℕ → ℕ → SysResult) (w : World)
      → HasCompleted n w
      → HasCompleted n (comm_cb_read_cb owner read w)
  unfolding comm_cb_read_cb
  comm_cb_read_cb-HasCompleted read w v =
      let c = closing_read-HasCompleted w v in
      if_both (HasCompleted n) w.c.is_closing
        (closing_or-HasCompleted _ _ c (read_on-HasCompleted read _ c))
        (read_on-HasCompleted read w v)

  accept_loop-HasCompleted :
      (fds : List ℕ) (w : World) → HasCompleted n w → HasCompleted n (accept_loop owner fds w)
  unfolding accept_loop
  accept_loop-HasCompleted [] w v = v
  accept_loop-HasCompleted (newfd ∷ rest) w v =
      accept_loop-HasCompleted rest _ (deliver-HasCompleted _ _ refl v.count)

  accept_end-HasCompleted :
      (e : AcceptError) (w : World) → HasCompleted n w → HasCompleted n (accept_end owner e w)
  unfolding accept_end
  accept_end-HasCompleted again w v = record { count = v.count }
  accept_end-HasCompleted (other e) w v = deliver-HasCompleted _ _ refl v.count

  accept_on-HasCompleted :
      (fds : List ℕ) (e : AcceptError) (w : World)
      → HasCompleted n w
      → HasCompleted n (accept_on owner fds e w)
  unfolding accept_on
  accept_on-HasCompleted fds e w v =
      if_both (HasCompleted n) _ (accept_end-HasCompleted e _ (accept_loop-HasCompleted fds w v)) v

  pub comm_cb_accept-HasCompleted :
      (fds : List ℕ) (e : AcceptError) (w : World)
      → HasCompleted n w
      → HasCompleted n (comm_cb_accept owner fds e w)
  unfolding comm_cb_accept
  comm_cb_accept-HasCompleted fds e w v =
      let c = deliver-HasCompleted _ _ refl v.count in
      if_both (HasCompleted n) w.c.is_closing
        (closing_or-HasCompleted _ _ c (accept_on-HasCompleted fds e _ c))
        (accept_on-HasCompleted fds e w v)

  pub comm_cb_connect-HasCompleted :
      (x : ConnectProgress) (w : World)
      → HasCompleted n w
      → HasCompleted n (comm_cb_connect owner x w)
  unfolding comm_cb_connect
  comm_cb_connect-HasCompleted in_progress w v = record { count = v.count }
  comm_cb_connect-HasCompleted connected w v = deliver-HasCompleted _ _ refl v.count
  comm_cb_connect-HasCompleted (refused e) w v = deliver-HasCompleted _ _ refl v.count

  connect_on-HasCompleted :
      (x : ConnectProgress) (w : World) → HasCompleted n w → HasCompleted n (connect_on owner x w)
  unfolding connect_on
  connect_on-HasCompleted x w v = if_both (HasCompleted n) _ (comm_cb_connect-HasCompleted x w v) v

  pub comm_cb_connect_start-HasCompleted :
      (x : ConnectProgress) (w : World)
      → HasCompleted n w
      → HasCompleted n (comm_cb_connect_start owner x w)
  unfolding comm_cb_connect_start
  comm_cb_connect_start-HasCompleted x w v =
      let c = deliver-HasCompleted _ _ refl v.count in
      if_both (HasCompleted n) w.c.is_closing
        (closing_or-HasCompleted _ _ c (connect_on-HasCompleted x _ c))
        (connect_on-HasCompleted x w v)
