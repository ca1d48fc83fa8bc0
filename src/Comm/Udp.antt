-- ===== src/Comm/Udp.antt =====
-- lib/libiapp/comm.c: reading and writing datagrams.
use libiapp.Base.{
  ℕ, zero, suc, ◌-◌, Bool, true, false, not, ◌&&◌, ◌||◌, Option, none, some, List, [], ◌∷◌, ◌==◌,
  if◌then◌else◌,
}
use libiapp.Comm.State.{
  completed, closing, error, UdpFrame, Call, udp_read_done, udp_write_done, World, SysResult, got,
  would_block, interrupted, sys_error, add_event, set_udp_r, set_udp_w, comm_is_close_ready,
  comm_start_cleanup,
}
use libiapp.Comm.Handlers.{deliver, closing_or}

-- fde_comm_udp_alloc: a frame of the given size, if both allocations succeed.
unfoldable pub fde_comm_udp_alloc : (calloc malloc : Bool) (id maxlen : ℕ) → Option UdpFrame
fde_comm_udp_alloc calloc malloc id maxlen =
    if calloc && malloc then some (record { frame_id = id; size = maxlen; len = 0 }) else none

-- TAILQ_REMOVE of the first frame, and `qlen--`.
unfoldable pub drop_frame : World → List UdpFrame → World
drop_frame w rest = set_udp_w w (record (w.c.udp_w) { w_q = rest; qlen = w.c.udp_w.qlen - 1 })

-- `enomem` is ENOMEM of the system's headers.
module _ (owner : Call → World → World) (enomem : ℕ) where
  -- comm_cb_udp_read with the allocated frame and the result of recvfrom(2).
  unfoldable pub receive : Option UdpFrame → SysResult → World → World
  unfolding deliver
  receive none res w =
      let v = add_event w.c.ev_udp_read w in
      deliver owner (udp_read_done v.c.udp_r.cb none error enomem) v
  receive (some fr) (got n) w =
      let v = add_event w.c.ev_udp_read w in
      deliver owner (udp_read_done v.c.udp_r.cb (some (record fr { len = n })) completed 0) v
  receive (some fr) (would_block e) w =
      let v = add_event w.c.ev_udp_read w in
      deliver owner (udp_read_done v.c.udp_r.cb none error e) v
  receive (some fr) (interrupted e) w =
      let v = add_event w.c.ev_udp_read w in
      deliver owner (udp_read_done v.c.udp_r.cb none error e) v
  receive (some fr) (sys_error e) w =
      let v = add_event w.c.ev_udp_read w in
      deliver owner (udp_read_done v.c.udp_r.cb none error e) v

  -- comm_cb_udp_read behind its closing branch. `alloc` is fde_comm_udp_alloc at a given size.
  unfoldable pub udp_read_on : (alloc : ℕ → Option UdpFrame) → SysResult → World → World
  unfolding receive
  udp_read_on alloc res w =
      if w.c.udp_r.is_active then receive (alloc w.c.udp_r.maxlen) res w else w

  -- comm_cb_udp_read.
  unfoldable pub comm_cb_udp_read : (alloc : ℕ → Option UdpFrame) → SysResult → World → World
  unfolding udp_read_on deliver closing_or
  comm_cb_udp_read alloc res w =
      let v = set_udp_r w (record (w.c.udp_r) { is_active = false }) in
      let u = deliver owner (udp_read_done v.c.udp_r.cb none closing enomem) v in
      if w.c.is_closing then closing_or u (udp_read_on alloc res u) else udp_read_on alloc res w

-- What a sendto(2) means for the first frame of the queue: the call to make, or a stop of the loop.
unfoldable pub sent : ℕ → UdpFrame → SysResult → Option Call
sent cb fr (got n) = some (udp_write_done cb fr (if n == fr.len then completed else error) n 0)
sent cb fr (sys_error e) = some (udp_write_done cb fr error 0 e)
sent cb fr _ = none

-- The end of comm_cb_udp_write: the event is armed again if frames are left.
unfoldable pub reprime : World → World
reprime w = elim w.c.udp_w.w_q [
  | [] ↦ w
  | _ ∷ _ ↦ add_event w.c.ev_udp_write (set_udp_w w (record (w.c.udp_w) { is_primed = true }))
]

-- The flags that the closing branch of comm_cb_udp_write clears.
unfoldable pub disarm : World → World
disarm w = set_udp_w w (record (w.c.udp_w) { is_active = false; is_primed = false })

module _ (owner : Call → World → World) where
  -- The `while` of the closing branch of comm_cb_udp_write, on fuel.
  unfoldable pub drain : ℕ → World → Option World
  unfolding deliver drop_frame
  drain zero w = none
  drain (suc fuel) w = elim w.c.udp_w.w_q [
    | [] ↦ some w
    | fr ∷ rest ↦
        drain fuel (deliver owner (udp_write_done w.c.udp_w.cb fr closing 0 0) (drop_frame w rest))
  ]

  -- The `while` of sendto(2) calls, on fuel; `sendto n` is the result of the n-th call.
  unfoldable pub send_loop : (sendto : ℕ → SysResult) → ℕ → ℕ → World → Option World
  unfolding deliver drop_frame sent
  send_loop sendto zero n w = none
  send_loop sendto (suc fuel) n w = elim w.c.udp_w.w_q [
    | [] ↦ some w
    | fr ∷ rest ↦ elim (sent w.c.udp_w.cb fr (sendto n)) [
      | none ↦ some w
      | some k ↦ send_loop sendto fuel (suc n) (deliver owner k (drop_frame w rest))
    ]
  ]

  -- comm_cb_udp_write behind its closing branch.
  unfoldable pub udp_write_on : (sendto : ℕ → SysResult) → ℕ → World → Option World
  unfolding send_loop reprime
  udp_write_on sendto fuel w =
      let unprimed = set_udp_w w (record (w.c.udp_w) { is_primed = false }) in
      if not w.c.udp_w.is_active || not w.c.udp_w.is_primed
      then some w
      else elim (send_loop sendto fuel 0 unprimed) [ none ↦ none | some v ↦ some (reprime v) ]

  -- The closing branch of comm_cb_udp_write behind its loop.
  unfoldable pub closing_udp_write : (sendto : ℕ → SysResult) → ℕ → World → Option World
  unfolding udp_write_on disarm comm_is_close_ready comm_start_cleanup
  closing_udp_write sendto fuel w =
      let v = disarm w in
      if comm_is_close_ready v.c then some (comm_start_cleanup v) else udp_write_on sendto fuel v

  -- comm_cb_udp_write.
  unfoldable pub comm_cb_udp_write : (sendto : ℕ → SysResult) → ℕ → World → Option World
  unfolding udp_write_on drain closing_udp_write
  comm_cb_udp_write sendto fuel w =
      if w.c.is_closing
      then elim (drain fuel w) [ none ↦ none | some v ↦ closing_udp_write sendto fuel v ]
      else udp_write_on sendto fuel w
