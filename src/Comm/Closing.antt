-- ===== src/Comm/Closing.antt =====
-- What lib/libiapp/comm.c does with the datagrams of an object that is closing.
use libiapp.Base.{
  ℕ, zero, suc, ◌<◌, ◌≡◌, refl, sym, ap, ◌∙◌, true, false, Option, some, List, [], ◌∷◌, ◌++◌,
  append_assoc, append-nil, arith, if_both, if_cases, length,
}
use libiapp.Comm.State.{
  Call, closing, udp_write_done, UdpFrame, UdpWriteState, World, SysResult, comm_is_close_ready,
  comm_start_cleanup,
}
use libiapp.Comm.Api.{
  comm_mark_nonclose, comm_close, begin_read, register_read, read_if_ready, comm_read, set_buffer,
  register_write, begin_write, write_if_ready, comm_write, comm_listen, comm_connect, comm_udp_read,
  comm_udp_write_setup, comm_udp_write,
}
use libiapp.Comm.Handlers.{deliver}
use libiapp.Comm.Udp.{drop_frame, drain, disarm, udp_write_on, closing_udp_write, comm_cb_udp_write}
use libiapp.Comm.Reach.{
  ApiStep, marks, closes, reads, writes, listens, connects, udp_reads, udp_sets_up, udp_writes, Api,
  done, and_then, IsOwner,
}
use libiapp.Comm.WriteEnd.{Api-calls}

-- The object is closing, with `s` as the state of its datagrams.
abbrev pub IsClosing : UdpWriteState → World → Type 0
IsClosing s w = (w.c.is_closing ≡ true) × (w.c.udp_w ≡ s)

module _ {s : UdpWriteState} (a : s.is_active ≡ true) where
  -- While an object is closing no call of its owner touches the queue of datagrams.
  ApiStep-IsClosing : {w u : World} → ApiStep w u → IsClosing s w → IsClosing s u
  unfolding comm_mark_nonclose comm_close begin_read register_read read_if_ready comm_read
      set_buffer register_write begin_write write_if_ready comm_write comm_listen comm_connect
      comm_udp_read comm_udp_write_setup comm_udp_write
  ApiStep-IsClosing marks v = ground arith
  ApiStep-IsClosing {w} closes v = if_cases (IsClosing s) w.c.is_closing (λ e. v) (λ e. cc)
  ApiStep-IsClosing (reads buf len cb) v = ground arith
  ApiStep-IsClosing (writes nb start len cb) v = ground arith
  ApiStep-IsClosing (listens cb) v = ground arith
  ApiStep-IsClosing (connects limit sin slen cb) v = ground arith
  ApiStep-IsClosing (udp_reads cb maxlen) v = ground arith
  ApiStep-IsClosing (udp_sets_up cb qlen) v = ground arith
  ApiStep-IsClosing (udp_writes fr) v = ground arith

  Api-IsClosing : {w u : World} → Api w u → IsClosing s w → IsClosing s u
  Api-IsClosing done v = v
  Api-IsClosing (and_then r t) v = ApiStep-IsClosing t (Api-IsClosing r v)

cleaned :
    (w : World)
    → ((comm_start_cleanup w).c.udp_w.w_q ≡ w.c.udp_w.w_q)
      × ((comm_start_cleanup w).c.udp_w.is_active ≡ w.c.udp_w.is_active)
      × ((comm_start_cleanup w).calls ≡ w.calls)
unfolding comm_start_cleanup
cleaned w = ground arith

-- The call that answers a datagram of an object that is closing.
abbrev pub refusal : ℕ → UdpFrame → Call
refusal cb fr = udp_write_done cb fr closing 0 0

abbrev pub refusals : ℕ → List UdpFrame → List Call
refusals cb [] = []
refusals cb (fr ∷ rest) = refusal cb fr ∷ refusals cb rest

module _ (owner : Call → World → World) (o : IsOwner owner) where
  -- One frame goes, and its owner is told.
  refuse : World → UdpFrame → List UdpFrame → World
  refuse w fr rest = deliver owner (refusal w.c.udp_w.cb fr) (drop_frame w rest)

  refuse-IsClosing :
      (w : World) (fr : UdpFrame) (rest : List UdpFrame)
      → w.c.is_closing ≡ true
      → w.c.udp_w.is_active ≡ true
      → IsClosing (drop_frame w rest).c.udp_w (refuse w fr rest)
  unfolding deliver drop_frame refuse
  refuse-IsClosing w fr rest c a = Api-IsClosing a (o _ _) (c, refl)

  refuse_state :
      (w : World) (fr : UdpFrame) (rest : List UdpFrame)
      → w.c.is_closing ≡ true
      → w.c.udp_w.is_active ≡ true
      → let s = (refuse w fr rest).c.udp_w in
        (s.w_q ≡ rest) × (s.is_active ≡ true) × (s.cb ≡ w.c.udp_w.cb)
  unfolding drop_frame
  refuse_state w fr rest c a =
      let (_, s) = refuse-IsClosing w fr rest c a in
      (ap UdpWriteState.w_q s, ap UdpWriteState.is_active s ∙ a, ap UdpWriteState.cb s)

  refuse-calls :
      (w : World) (fr : UdpFrame) (rest : List UdpFrame)
      → (refuse w fr rest).calls ≡ w.calls ++ refusal w.c.udp_w.cb fr ∷ []
  unfolding deliver drop_frame refuse
  refuse-calls w fr rest = Api-calls (o _ _)

  -- What a drained object looks like: every frame of `frames` was answered, in order.
  abbrev Drained : ℕ → List UdpFrame → List Call → Option World → Type 0
  Drained cb frames before r =
      (u : World) × (r ≡ some u)
      × (u.c.is_closing ≡ true)
      × (u.c.udp_w.w_q ≡ [])
      × (u.calls ≡ before ++ refusals cb frames)

  drain_empty : (fuel : ℕ) (w : World) → w.c.udp_w.w_q ≡ [] → drain owner (suc fuel) w ≡ some w
  unfolding drain
  drain_empty fuel w q = ground arith

  drain_frame :
      (fuel : ℕ) (w : World) (fr : UdpFrame) (rest : List UdpFrame)
      → w.c.udp_w.w_q ≡ fr ∷ rest
      → drain owner (suc fuel) w ≡ drain owner fuel (refuse w fr rest)
  unfolding drain refuse
  drain_frame fuel w fr rest q = ground arith

  drain-Drained :
      (fuel : ℕ) (w : World) (frames : List UdpFrame)
      → w.c.udp_w.w_q ≡ frames
      → w.c.is_closing ≡ true
      → w.c.udp_w.is_active ≡ true
      → length frames < fuel
      → Drained w.c.udp_w.cb frames w.calls (drain owner fuel w)
  drain-Drained zero w frames q c a l = absurd (omega arith)
  drain-Drained (suc fuel) w [] q c a l = (w, drain_empty fuel w q, c, q, sym (append-nil w.calls))
  drain-Drained (suc fuel) w (fr ∷ rest) q c a l =
      let (c', _) = refuse-IsClosing w fr rest c a in
      let (q', a', k) = refuse_state w fr rest c a in
      let u = refuse w fr rest in
      let (v, r, cv, qv, calls) = drain-Drained fuel u rest q' c' a' (omega arith) in
      (
        v,
        drain_frame fuel w fr rest q ∙ r,
        cv,
        qv,
        calls
            ∙ (rw (refuse-calls, k)
                (append_assoc w.calls (refusal w.c.udp_w.cb fr ∷ []) (refusals w.c.udp_w.cb rest))),
      )

  udp_write_on_inactive :
      (sendto : ℕ → SysResult) (fuel : ℕ) (w : World)
      → w.c.udp_w.is_active ≡ false
      → udp_write_on owner sendto fuel w ≡ some w
  unfolding udp_write_on
  udp_write_on_inactive sendto fuel w a = ground arith

  -- What is left of an object that was drained: inactive, its queue and its calls the same.
  abbrev Settled : World → Option World → Type 0
  Settled v r =
      (u : World) × (r ≡ some u)
      × (u.c.udp_w.w_q ≡ v.c.udp_w.w_q)
      × (u.c.udp_w.is_active ≡ false)
      × (u.calls ≡ v.calls)

  closing_udp_write-Settled :
      (sendto : ℕ → SysResult) (fuel : ℕ) (v : World)
      → Settled v (closing_udp_write owner sendto fuel v)
  unfolding closing_udp_write disarm
  closing_udp_write-Settled sendto fuel v =
      if_both (Settled v) (comm_is_close_ready (disarm v).c)
        (let (q, a, k) = cleaned (disarm v) in (comm_start_cleanup (disarm v), refl, q, a, k))
        (disarm v, udp_write_on_inactive sendto fuel (disarm v) refl, refl, refl, refl)

  closing_run :
      (sendto : ℕ → SysResult) (fuel : ℕ) (w v : World)
      → w.c.is_closing ≡ true
      → drain owner fuel w ≡ some v
      → comm_cb_udp_write owner sendto fuel w ≡ closing_udp_write owner sendto fuel v
  unfolding comm_cb_udp_write
  closing_run sendto fuel w v c r = ground arith

  -- A run of comm_cb_udp_write on a closing object whose datagrams were set up comes back, given one unit of fuel more than
  -- datagrams are queued. It tells the owner of every queued datagram, once, in the order of the
  -- queue and with FDE_COMM_CB_CLOSING, makes no other call, and leaves the queue empty and inactive;
  -- whatever the owner calls from its callbacks.
  pub comm_cb_udp_write_closing :
      (sendto : ℕ → SysResult) (fuel : ℕ) (w : World)
      → w.c.is_closing ≡ true
      → w.c.udp_w.is_active ≡ true
      → length w.c.udp_w.w_q < fuel
      → (u : World) × (comm_cb_udp_write owner sendto fuel w ≡ some u)
        × (u.c.udp_w.w_q ≡ [])
        × (u.c.udp_w.is_active ≡ false)
        × (u.calls ≡ w.calls ++ refusals w.c.udp_w.cb w.c.udp_w.w_q)
  comm_cb_udp_write_closing sendto fuel w c a l =
      let (v, r, _, q, calls) = drain-Drained fuel w w.c.udp_w.w_q refl c a l in
      let (u, r', q', a', calls') = closing_udp_write-Settled sendto fuel v in
      (u, closing_run sendto fuel w v c r ∙ r', q' ∙ q, a', calls' ∙ calls)
