-- ===== src/Udp/Flow.antt =====
-- Where the datagrams of lib/libiapp/comm.c go while its write handler runs, for an owner that leaves the comm object
-- as it is.
use libiapp.Base.{
  ℕ, zero, suc, ◌+◌, ◌≡◌, refl, sym, ap, ◌∙◌, true, false, not, ◌||◌, Option, none, some, List, [],
  ◌∷◌, ◌++◌, append_assoc, append-nil, arith, ◌==◌, if◌then◌else◌, if_both, list_cases,
  option_cases, times,
}
use libiapp.Comm.State.{
  UdpFrame, Call, read_done, write_done, accept_done, connect_done, udp_read_done, udp_write_done,
  close_done, closing, World, SysResult, got, would_block, interrupted, sys_error,
  comm_is_close_ready, comm_start_cleanup, add_event,
}
use libiapp.Comm.Handlers.{deliver}
use libiapp.Comm.Udp.{
  drop_frame, sent, reprime, drain, send_loop, udp_write_on, disarm, closing_udp_write,
  comm_cb_udp_write,
}

-- The frames of a queue, and those that calls hand back to the owner.
unfoldable pub queue_ids : List UdpFrame → List ℕ
queue_ids [] = []
queue_ids (fr ∷ rest) = fr.frame_id ∷ queue_ids rest

abbrev pub call_ids : Call → List ℕ → List ℕ
call_ids (udp_write_done cb fr st n e) ds = fr.frame_id ∷ ds
call_ids _ ds = ds

unfoldable pub done_ids : List Call → List ℕ
done_ids [] = []
done_ids (k ∷ ks) = call_ids k (done_ids ks)

pub times-done_ids :
    (d : ℕ) (ks js : List Call)
    → times d (done_ids (ks ++ js)) ≡ times d (done_ids ks) + times d (done_ids js)
unfolding times done_ids
times-done_ids d [] js = omega arith
times-done_ids d (read_done cb st n ∷ ks) js = times-done_ids d ks js
times-done_ids d (write_done cb st n ∷ ks) js = times-done_ids d ks js
times-done_ids d (accept_done cb st f n ∷ ks) js = times-done_ids d ks js
times-done_ids d (connect_done cb st n ∷ ks) js = times-done_ids d ks js
times-done_ids d (udp_read_done cb fr st n ∷ ks) js = times-done_ids d ks js
times-done_ids d (udp_write_done cb fr st n e ∷ ks) js = omega (arith, times-done_ids d ks js)
times-done_ids d (close_done cb ∷ ks) js = times-done_ids d ks js

pub times-queue_ids :
    (d : ℕ) (xs : List UdpFrame) (fr : UdpFrame)
    → times d (queue_ids (xs ++ fr ∷ []))
      ≡ times d (queue_ids xs) + (if fr.frame_id == d then 1 else 0)
unfolding times queue_ids
times-queue_ids d [] fr = omega arith
times-queue_ids d (x ∷ xs) fr = omega (arith, times-queue_ids d xs fr)

-- Every frame is in the queue still, or was handed back by one of the calls that were made.
abbrev pub Flowed : World → World → Type 0
Flowed w v =
    (ks : List Call) × (v.calls ≡ w.calls ++ ks)
    × ((d : ℕ)
        → times d (queue_ids v.c.udp_w.w_q) + times d (done_ids ks)
          ≡ times d (queue_ids w.c.udp_w.w_q))

Flowed-still : (w v : World) → v.calls ≡ w.calls → v.c.udp_w.w_q ≡ w.c.udp_w.w_q → Flowed w v
unfolding times done_ids
Flowed-still w v e q =
    ([], e ∙ sym (append-nil w.calls), λ d. ap (λ xs. times d (queue_ids xs) + 0) q ∙ omega arith)

Flowed-trans : (w v u : World) → Flowed w v → Flowed v u → Flowed w u
Flowed-trans w v u (ks, e, f) (js, g, h) = (
  ks ++ js,
  g ∙ ap (λ xs. xs ++ js) e ∙ append_assoc w.calls ks js,
  λ d. omega (arith, f d, h d, times-done_ids d ks js),
)

-- What holds of the result, if the loop has one.
abbrev pub FlowedTo : World → Option World → Type 0
FlowedTo w none = Unit {0}
FlowedTo w (some v) = Flowed w v

FlowedTo-map :
    (f : World → World) (w : World) (r : Option World)
    → ((v : World) → Flowed v (f v))
    → FlowedTo w r
    → FlowedTo w (elim r [ none ↦ none | some v ↦ some (f v) ])
FlowedTo-map f w none h e = tt
FlowedTo-map f w (some v) h e = Flowed-trans w v (f v) e (h v)

FlowedTo-trans : (w v : World) (r : Option World) → Flowed w v → FlowedTo v r → FlowedTo w r
FlowedTo-trans w v none e f = tt
FlowedTo-trans w v (some u) e f = Flowed-trans w v u e f

module _ (owner : Call → World → World)
    (still : (k : Call) (w : World) → ((owner k w).calls ≡ w.calls) × ((owner k w).c ≡ w.c)) where
  hands_back :
      (w : World) (fr : UdpFrame) (rest : List UdpFrame) (k : Call)
      → w.c.udp_w.w_q ≡ fr ∷ rest
      → ((d : ℕ) → times d (call_ids k []) ≡ times d (fr.frame_id ∷ []))
      → Flowed w (deliver owner k (drop_frame w rest))
  unfolding deliver drop_frame times queue_ids done_ids
  hands_back w fr rest k q e =
      let v = record (drop_frame w rest) { calls = w.calls ++ k ∷ [] } in
      let (a, b) = still k v in
      (
        k ∷ [],
        a,
        λ d.
            let g = ap (λ c. times d (queue_ids c.udp_w.w_q)) b in
            let h = ap (λ xs. times d (queue_ids xs)) q in omega (arith, g, h, e d),
      )

  drain-Flowed : (fuel : ℕ) (w : World) → FlowedTo w (drain owner fuel w)
  unfolding drain times
  drain-Flowed zero w = tt
  drain-Flowed (suc fuel) w =
      list_cases (FlowedTo w) w.c.udp_w.w_q (λ e. Flowed-still w w refl refl)
        λ fr rest e.
          (let k = udp_write_done w.c.udp_w.cb fr closing 0 0 in
            let v = deliver owner k (drop_frame w rest) in
            FlowedTo-trans w v (drain owner fuel v) (hands_back w fr rest k e (λ d. refl))
              (drain-Flowed fuel v))

  sent_frame :
      (cb : ℕ) (fr : UdpFrame) (r : SysResult) (k : Call)
      → sent cb fr r ≡ some k
      → (d : ℕ) → times d (call_ids k []) ≡ times d (fr.frame_id ∷ [])
  unfolding sent
  sent_frame cb fr (got n) k e d = ground (arith, e)
  sent_frame cb fr (sys_error n) k e d = ground (arith, e)
  sent_frame cb fr (would_block n) k e d = cc
  sent_frame cb fr (interrupted n) k e d = cc

  send_loop-Flowed :
      (sendto : ℕ → SysResult) (fuel n : ℕ) (w : World)
      → FlowedTo w (send_loop owner sendto fuel n w)
  unfolding send_loop
  send_loop-Flowed sendto zero n w = tt
  send_loop-Flowed sendto (suc fuel) n w =
      list_cases (FlowedTo w) w.c.udp_w.w_q (λ e. Flowed-still w w refl refl)
        λ fr rest e.
          option_cases (FlowedTo w) (sent w.c.udp_w.cb fr (sendto n))
            (λ s. Flowed-still w w refl refl)
            λ k s.
              (let v = deliver owner k (drop_frame w rest) in
                FlowedTo-trans w v (send_loop owner sendto fuel (suc n) v)
                  (hands_back w fr rest k e (sent_frame w.c.udp_w.cb fr (sendto n) k s))
                  (send_loop-Flowed sendto fuel (suc n) v))

  reprime-Flowed : (w : World) → Flowed w (reprime w)
  unfolding reprime
  reprime-Flowed w =
      list_cases (Flowed w) w.c.udp_w.w_q (λ e. Flowed-still w w refl refl)
        (λ fr rest e. Flowed-still w primed refl refl)
    where
      primed : World
      primed =
          add_event w.c.ev_udp_write
            (record w { c = record (w.c) { udp_w = record (w.c.udp_w) { is_primed = true } } })

  udp_write_on-Flowed :
      (sendto : ℕ → SysResult) (fuel : ℕ) (w : World)
      → FlowedTo w (udp_write_on owner sendto fuel w)
  unfolding udp_write_on
  udp_write_on-Flowed sendto fuel w =
      let u = record w { c = record (w.c) { udp_w = record (w.c.udp_w) { is_primed = false } } } in
      if_both (FlowedTo w) (not w.c.udp_w.is_active || not w.c.udp_w.is_primed) {x = some w}
        (Flowed-still w w refl refl)
        (FlowedTo-map reprime w (send_loop owner sendto fuel 0 u) reprime-Flowed (
          FlowedTo-trans w u (send_loop owner sendto fuel 0 u) (Flowed-still w u refl refl)
            (send_loop-Flowed sendto fuel 0 u)))

  start_cleanup-Flowed : (w : World) → Flowed w (comm_start_cleanup w)
  unfolding comm_start_cleanup
  start_cleanup-Flowed w = Flowed-still w (comm_start_cleanup w) (ground arith) (ground arith)

  closing_udp_write-Flowed :
      (sendto : ℕ → SysResult) (fuel : ℕ) (w : World)
      → FlowedTo w (closing_udp_write owner sendto fuel w)
  unfolding closing_udp_write disarm
  closing_udp_write-Flowed sendto fuel w =
      let v = disarm w in
      let a = Flowed-still w v refl refl in
      if_both (FlowedTo w) (comm_is_close_ready v.c) {x = some (comm_start_cleanup v)}
        (Flowed-trans w v (comm_start_cleanup v) a (start_cleanup-Flowed v))
        (FlowedTo-trans w v (udp_write_on owner sendto fuel v) a
          (udp_write_on-Flowed sendto fuel v))

  bind_drained :
      (sendto : ℕ → SysResult) (fuel : ℕ) (w : World) (r : Option World)
      → FlowedTo w r
      → FlowedTo w (elim r [ none ↦ none | some v ↦ closing_udp_write owner sendto fuel v ])
  bind_drained sendto fuel w none f = tt
  bind_drained sendto fuel w (some v) f =
      FlowedTo-trans w v (closing_udp_write owner sendto fuel v) f
        (closing_udp_write-Flowed sendto fuel v)

  pub comm_cb_udp_write-Flowed :
      (sendto : ℕ → SysResult) (fuel : ℕ) (w : World)
      → FlowedTo w (comm_cb_udp_write owner sendto fuel w)
  unfolding comm_cb_udp_write
  comm_cb_udp_write-Flowed sendto fuel w =
      if_both (FlowedTo w) w.c.is_closing
        (bind_drained sendto fuel w (drain owner fuel w) (drain-Flowed fuel w))
        (udp_write_on-Flowed sendto fuel w)
