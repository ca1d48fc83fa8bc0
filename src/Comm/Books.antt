-- ===== src/Comm/Books.antt =====
-- The handlers of lib/libiapp/comm.c for streams, and the invariant of a comm object.
use libiapp.Base.{
  ℕ, zero, suc, ◌+◌, ◌-◌, ◌≤◌, ◌≡◌, refl, Bool, true, false, not, ◌||◌, Option, none, some, List,
  [], ◌∷◌, ◌++◌, arith, if◌then◌else◌, if_both, if_cases, length,
}
use libiapp.Comm.State.{Call, World, SysResult, got, would_block, interrupted, sys_error}
use libiapp.Comm.Handlers.{
  closing_or, reset_read, deliver, read_result, read_on, closing_read, comm_cb_read_cb,
  comm_cb_write_complete, write_result, write_on, closing_write, comm_cb_write_cb,
}
use libiapp.Comm.Sockets.{
  AcceptError, again, other, ConnectProgress, in_progress, connected, refused, accept_loop,
  accept_end, accept_on, comm_cb_accept, comm_cb_connect, connect_on, comm_cb_connect_start,
}
use libiapp.Comm.Reach.{IsOwner, IsWrite}
use libiapp.Comm.Ledger.{
  is_read_done, is_write_done, is_read_answer, is_write_answer, count_calls, count-snoc,
  IsConsistent, comm_start_cleanup-IsConsistent, Api-IsConsistent,
}

pub closing_or-IsConsistent :
    (w u : World) → IsConsistent w → IsConsistent u → IsConsistent (closing_or w u)
unfolding closing_or
closing_or-IsConsistent w u v k = if_both IsConsistent _ (comm_start_cleanup-IsConsistent w v) k

reset_read-IsConsistent : (w : World) → IsConsistent w → IsConsistent (reset_read w)
unfolding reset_read
reset_read-IsConsistent w v = ground arith

abbrev pub owed : (Call → Bool) → Call → ℕ
owed f k = if f k then 1 else 0

-- The books of an object that owes its owner the callback `k`.
pub record IsOwing (w : World) (k : Call) : Type 0 where
  pub read_answered :
      w.reads
      ≤ count_calls is_read_done w.calls + owed is_read_done k + (if w.c.r.is_active then 1 else 0)
  pub read_once :
      count_calls is_read_answer w.calls
        + owed is_read_answer k
        + (if w.c.r.is_active then 1 else 0)
      ≤ w.reads
  pub write_answered :
      w.writes
      ≤ count_calls is_write_done w.calls
        + owed is_write_done k
        + (if w.c.w.is_active then 1 else 0)
  pub write_once :
      count_calls is_write_answer w.calls
        + owed is_write_answer k
        + (if w.c.w.is_active then 1 else 0)
      ≤ w.writes
  pub queued : w.c.udp_w.qlen ≡ length w.c.udp_w.w_q
  pub limited : w.c.udp_w.qlen ≤ w.c.udp_w.max_qlen
  pub unused : w.c.udp_w.is_active ≡ false → w.c.udp_w.w_q ≡ []
  pub inside : w.c.w.offset ≤ w.c.w.len
  pub ordered : w.c.is_cleanup ≡ true → w.c.is_closing ≡ true

pay : (k : Call) (w : World) → IsOwing w k → IsConsistent (record w { calls = w.calls ++ k ∷ [] })
pay k w v = record {
  read_answered = omega (arith, v.read_answered, count-snoc is_read_done w.calls k);
  read_once = omega (arith, v.read_once, count-snoc is_read_answer w.calls k);
  write_answered = omega (arith, v.write_answered, count-snoc is_write_done w.calls k);
  write_once = omega (arith, v.write_once, count-snoc is_write_answer w.calls k);
  queued = v.queued;
  limited = v.limited;
  unused = v.unused;
  inside = v.inside;
  ordered = v.ordered;
}

module _ (owner : Call → World → World) (o : IsOwner owner) where
  -- A call settles what is owed, and then the owner acts.
  pub deliver-IsConsistent : (k : Call) (w : World) → IsOwing w k → IsConsistent (deliver owner k w)
  unfolding deliver
  deliver-IsConsistent k w v = Api-IsConsistent (o k _) (pay k w v)

  read_result-IsConsistent :
      (res : SysResult) (w : World)
      → IsConsistent w
      → w.c.r.is_active ≡ true
      → IsConsistent (read_result owner res w)
  unfolding read_result
  read_result-IsConsistent (would_block e) w v a = v
  read_result-IsConsistent (got zero) w v a = deliver-IsConsistent _ _ (ground arith)
  read_result-IsConsistent (got (suc n)) w v a = deliver-IsConsistent _ _ (ground arith)
  read_result-IsConsistent (interrupted e) w v a = deliver-IsConsistent _ _ (ground arith)
  read_result-IsConsistent (sys_error e) w v a = deliver-IsConsistent _ _ (ground arith)

  read_on-IsConsistent :
      (read : ℕ → ℕ → SysResult) (w : World) → IsConsistent w → IsConsistent (read_on owner read w)
  unfolding read_on
  read_on-IsConsistent read w v =
      if_cases IsConsistent w.c.r.is_active (λ a. read_result-IsConsistent _ w v a)
        (λ a. reset_read-IsConsistent w v)

  closing_read-IsConsistent : (w : World) → IsConsistent w → IsConsistent (closing_read owner w)
  unfolding closing_read
  closing_read-IsConsistent w v =
      reset_read-IsConsistent _ (deliver-IsConsistent _ _ (ground arith))

  comm_cb_write_complete-IsConsistent :
      (ret : Option ℕ) (w : World)
      → IsConsistent w
      → w.c.w.is_active ≡ true
      → IsConsistent (comm_cb_write_complete owner ret w)
  unfolding comm_cb_write_complete
  comm_cb_write_complete-IsConsistent none w v a = deliver-IsConsistent _ _ (ground arith)
  comm_cb_write_complete-IsConsistent (some n) w v a =
      if_both IsConsistent _ v (deliver-IsConsistent _ _ (ground arith))

  write_result-IsConsistent :
      (res : SysResult) (w : World)
      → IsConsistent w
      → w.c.w.is_active ≡ true
      → ((n : ℕ) → res ≡ got n → n ≤ w.c.w.len - w.c.w.offset)
      → IsConsistent (write_result owner res w)
  unfolding write_result
  write_result-IsConsistent (would_block e) w v a h = v
  write_result-IsConsistent (got zero) w v a h = comm_cb_write_complete-IsConsistent (some 0) w v a
  write_result-IsConsistent (got (suc n)) w v a h = ground (arith, h (suc n) refl)
  write_result-IsConsistent (interrupted e) w v a h = comm_cb_write_complete-IsConsistent none w v a
  write_result-IsConsistent (sys_error e) w v a h = comm_cb_write_complete-IsConsistent none w v a

  write_on-IsConsistent :
      (write : ℕ → ℕ → ℕ → SysResult) (w : World)
      → IsWrite write
      → IsConsistent w
      → IsConsistent (write_on owner write w)
  unfolding write_on
  write_on-IsConsistent write w h v =
      if_cases IsConsistent (not w.c.w.is_active || not w.c.w.is_ready) (λ a. v)
        (λ a. write_result-IsConsistent _ w v (ground arith) (λ n e. h _ _ _ n e))

  closing_write-IsConsistent : (w : World) → IsConsistent w → IsConsistent (closing_write owner w)
  unfolding closing_write
  closing_write-IsConsistent w v = deliver-IsConsistent _ _ (ground arith)

  pub comm_cb_read_cb-IsConsistent :
      (read : ℕ → ℕ → SysResult) (w : World)
      → IsConsistent w
      → IsConsistent (comm_cb_read_cb owner read w)
  unfolding comm_cb_read_cb
  comm_cb_read_cb-IsConsistent read w v =
      let closed = closing_read-IsConsistent w v in
      if_both IsConsistent w.c.is_closing
        (closing_or-IsConsistent _ _ closed (read_on-IsConsistent read _ closed))
        (read_on-IsConsistent read w v)

  pub comm_cb_write_cb-IsConsistent :
      (write : ℕ → ℕ → ℕ → SysResult) (w : World)
      → IsWrite write
      → IsConsistent w
      → IsConsistent (comm_cb_write_cb owner write w)
  unfolding comm_cb_write_cb
  comm_cb_write_cb-IsConsistent write w h v =
      let closed = closing_write-IsConsistent w v in
      if_both IsConsistent w.c.is_closing
        (closing_or-IsConsistent _ _ closed (write_on-IsConsistent write _ h closed))
        (write_on-IsConsistent write w h v)

  accept_loop-IsConsistent :
      (fds : List ℕ) (w : World) → IsConsistent w → IsConsistent (accept_loop owner fds w)
  unfolding accept_loop
  accept_loop-IsConsistent [] w v = v
  accept_loop-IsConsistent (newfd ∷ rest) w v =
      accept_loop-IsConsistent rest _ (deliver-IsConsistent _ _ (ground arith))

  accept_end-IsConsistent :
      (e : AcceptError) (w : World) → IsConsistent w → IsConsistent (accept_end owner e w)
  unfolding accept_end
  accept_end-IsConsistent again w v = ground arith
  accept_end-IsConsistent (other e) w v = deliver-IsConsistent _ _ (ground arith)

  accept_on-IsConsistent :
      (fds : List ℕ) (e : AcceptError) (w : World)
      → IsConsistent w
      → IsConsistent (accept_on owner fds e w)
  unfolding accept_on
  accept_on-IsConsistent fds e w v =
      if_both IsConsistent _ (accept_end-IsConsistent e _ (accept_loop-IsConsistent fds w v)) v

  pub comm_cb_accept-IsConsistent :
      (fds : List ℕ) (e : AcceptError) (w : World)
      → IsConsistent w
      → IsConsistent (comm_cb_accept owner fds e w)
  unfolding comm_cb_accept
  comm_cb_accept-IsConsistent fds e w v =
      let closed = deliver-IsConsistent _ _ (ground arith) in
      if_both IsConsistent w.c.is_closing
        (closing_or-IsConsistent _ _ closed (accept_on-IsConsistent fds e _ closed))
        (accept_on-IsConsistent fds e w v)

  pub comm_cb_connect-IsConsistent :
      (x : ConnectProgress) (w : World) → IsConsistent w → IsConsistent (comm_cb_connect owner x w)
  unfolding comm_cb_connect
  comm_cb_connect-IsConsistent in_progress w v = ground arith
  comm_cb_connect-IsConsistent connected w v = deliver-IsConsistent _ _ (ground arith)
  comm_cb_connect-IsConsistent (refused e) w v = deliver-IsConsistent _ _ (ground arith)

  connect_on-IsConsistent :
      (x : ConnectProgress) (w : World) → IsConsistent w → IsConsistent (connect_on owner x w)
  unfolding connect_on
  connect_on-IsConsistent x w v = if_both IsConsistent _ (comm_cb_connect-IsConsistent x w v) v

  pub comm_cb_connect_start-IsConsistent :
      (x : ConnectProgress) (w : World)
      → IsConsistent w
      → IsConsistent (comm_cb_connect_start owner x w)
  unfolding comm_cb_connect_start
  comm_cb_connect_start-IsConsistent x w v =
      let closed = deliver-IsConsistent _ _ (ground arith) in
      if_both IsConsistent w.c.is_closing
        (closing_or-IsConsistent _ _ closed (connect_on-IsConsistent x _ closed))
        (connect_on-IsConsistent x w v)
