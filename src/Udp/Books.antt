-- ===== src/Udp/Books.antt =====
-- The frames that the client of src/udp_clt/udp_clt.c allocates.
use libiapp.Base.{
  ℕ, zero, suc, ◌+◌, ◌-◌, ◌%◌, ◌^◌, ◌≡◌, refl, sym, ap, ◌∙◌, Bool, true, false, not, ◌&&◌, ◌||◌,
  some, List, [], ◌∷◌, ◌++◌, ◌⊎◌, inl, inr, ℤ, pos, minus_one, arith, leb, ◌==◌, if◌then◌else◌,
  if_both, if_cases, option_cases, remove, remove-head, times, times-remove_any,
}
use mathlib.Core.Path.{subst}
use libiapp.Fde.Event.{Timeval}
use libiapp.Comm.State.{
  UdpFrame, Call, read_done, write_done, accept_done, connect_done, udp_read_done, udp_write_done,
  close_done, World, SysResult, add_event,
}
use libiapp.Comm.Api.{comm_udp_write}
use libiapp.Comm.Udp.{fde_comm_udp_alloc, comm_cb_udp_write}
use libiapp.Conn.Handlers.{is_completed_status}
use libiapp.Udp.State.{UdpClt, fde_comm_udp_free}
use libiapp.Udp.Client.{
  is_refused, fill_frame, send_frames, thrclt_send_frames, plan_now, thrsrv_comm_udp_write_cb, hear,
  hear_all, thrclt_ev_stat_print,
}
use libiapp.Udp.Flow.{
  queue_ids, done_ids, call_ids, times-done_ids, times-queue_ids, Flowed, FlowedTo,
  comm_cb_udp_write-Flowed,
}

-- The frames that are allocated are those in the queue, and others that `base` counts.
abbrev pub IsFramed : (ℕ → ℕ) → UdpClt → Type 0
IsFramed base s = (d : ℕ) → times d s.frames ≡ base d + times d (queue_ids s.comm_wr.c.udp_w.w_q)

-- comm_udp_write took a frame, or refused it.
abbrev Pushed : World → UdpFrame → World × ℤ → Type 0
Pushed w fr (v, r) =
    ((is_refused r ≡ true) × (v.c.udp_w.w_q ≡ w.c.udp_w.w_q))
    ⊎ ((is_refused r ≡ false) × (v.c.udp_w.w_q ≡ w.c.udp_w.w_q ++ fr ∷ []))

comm_udp_write-Pushed : (w : World) (fr : UdpFrame) → Pushed w fr (comm_udp_write w fr)
unfolding comm_udp_write
comm_udp_write-Pushed w fr =
    let s = w.c.udp_w in
    let v = record w {
      c = record (w.c) { udp_w = record s { w_q = s.w_q ++ fr ∷ []; qlen = s.qlen + 1 } };
    } in
    let primed =
      add_event v.c.ev_udp_write
        (record v { c = record (v.c) { udp_w = record (v.c.udp_w) { is_primed = true } } }) in
    if_both (Pushed w fr) (not s.is_active || w.c.is_closing) {x = (w, minus_one)}
      (inl (refl, refl))
      (if_both (Pushed w fr) (leb s.max_qlen s.qlen) {x = (w, minus_one)} (inl (refl, refl)) (
        if_both (λ u. Pushed w fr (u, pos 0)) s.is_primed {x = v} {y = primed} (inr (refl, refl))
          (inr (refl, refl))))

module _ (calloc malloc : ℕ → Bool) (base : ℕ → ℕ) where
  send_frames-IsFramed :
      (n : ℕ) (s : UdpClt) → IsFramed base s → IsFramed base (send_frames calloc malloc n s)
  unfolding send_frames fill_frame fde_comm_udp_free times
  send_frames-IsFramed zero s f = f
  send_frames-IsFramed (suc n) s f =
      option_cases (IsFramed base)
        (fde_comm_udp_alloc (calloc s.next_frame) (malloc s.next_frame) s.next_frame s.max_io_size)
        (λ e. f)
        λ fr e.
          (let (t, fs) = fill_frame s fr in
            let (w, r) = comm_udp_write t.comm_wr fs in
            let u = record t { comm_wr = w } in
            if_cases (IsFramed base) (is_refused r)
              (λ p d. elim (comm_udp_write-Pushed t.comm_wr fs) [
                | inl q ↦
                    ap (times d) (remove-head fr.frame_id s.frames)
                    ∙ f d
                    ∙ ap (λ xs. base d + times d (queue_ids xs)) (sym q.1)
                | inr q ↦ cc
              ])
              (λ p. send_frames-IsFramed n u (λ d. elim (comm_udp_write-Pushed t.comm_wr fs) [
                | inl q ↦ cc
                | inr q ↦ omega (
                  arith,
                  f d,
                  ap (λ xs. times d (queue_ids xs)) q.1,
                  times-queue_ids d s.comm_wr.c.udp_w.w_q fs,
                )
              ])))

-- What a callback hands back is freed.
times-hear :
    (d : ℕ) (now : World → Timeval) (k : Call) (s : UdpClt)
    → times d (hear now k s).frames ≡ times d s.frames - times d (call_ids k [])
unfolding hear thrsrv_comm_udp_write_cb fde_comm_udp_free times
times-hear d now (udp_write_done cb fr st n e) s =
    let counted = record s {
      total_pkt_written = (s.total_pkt_written + 1) % 2 ^ 64;
      total_byte_written = (s.total_byte_written + n) % 2 ^ 64;
    } in
    if_both
      (λ (t : UdpClt).
        times d (remove fr.frame_id t.frames)
        ≡ times d s.frames - ((if fr.frame_id == d then 1 else 0) + 0))
      (is_completed_status st && n == fr.len) {x = counted} {y = s}
      (omega (arith, times-remove_any d fr.frame_id s.frames))
      (omega (arith, times-remove_any d fr.frame_id s.frames))
times-hear d now (read_done cb st n) s = omega arith
times-hear d now (write_done cb st n) s = omega arith
times-hear d now (accept_done cb st fd n) s = omega arith
times-hear d now (connect_done cb st n) s = omega arith
times-hear d now (udp_read_done cb fr st n) s = omega arith
times-hear d now (close_done cb) s = omega arith

times-hear_all :
    (d : ℕ) (now : World → Timeval) (ks : List Call) (s : UdpClt)
    → times d (hear_all now ks s).frames ≡ times d s.frames - times d (done_ids ks)
unfolding hear_all done_ids times
times-hear_all d now [] s = omega arith
times-hear_all d now (k ∷ ks) s = omega (
  arith,
  times-hear_all d now ks (hear now k s),
  times-hear d now k s,
  times-done_ids d (k ∷ []) ks,
)

-- The events of the client: a round of sending, the statistics, and the write handler of its comm object. In the
-- handler, the loop sees what the callbacks do to it, and then the client hears of the calls that were made.
pub data UdpReach (s : UdpClt) : UdpClt → Type 0 where
  here : UdpReach s s
  ticks :
      {t : UdpClt} (calloc malloc : ℕ → Bool)
      → UdpReach s t
      → UdpReach s (thrclt_send_frames calloc malloc t)
  prints : {t : UdpClt} (now : Timeval) → UdpReach s t → UdpReach s (thrclt_ev_stat_print now t)
  writes :
      {t : UdpClt} {v : World} (now : World → Timeval) (sendto : ℕ → SysResult) (fuel : ℕ)
      (ks : List Call)
      → UdpReach s t
      → comm_cb_udp_write (plan_now t.ev_newconn now) sendto fuel t.comm_wr ≡ some v
      → v.calls ≡ t.comm_wr.calls ++ ks
      → UdpReach s (record (hear_all now ks t) { comm_wr = v })

written-IsFramed :
    (base : ℕ → ℕ) (t : UdpClt) (v : World) (now : World → Timeval) (ks : List Call)
    → Flowed t.comm_wr v
    → v.calls ≡ t.comm_wr.calls ++ ks
    → IsFramed base t
    → IsFramed base (record (hear_all now ks t) { comm_wr = v })
written-IsFramed base t v now ks (js, e, g) p f d =
    let w = t.comm_wr.calls in
    omega (
      arith,
      f d,
      g d,
      times-hear_all d now ks t,
      times-done_ids d w ks,
      times-done_ids d w js,
      ap (λ c. times d (done_ids c)) e,
      ap (λ c. times d (done_ids c)) p,
    )

-- From a state in which the frames that are allocated are those in the queue of the comm object, and
-- others, and after any events in any order, whatever is allocated and whatever sendto(2) answers: the
-- frames that are allocated are those in the queue, and the others.
pub UdpReach-IsFramed :
    {s t : UdpClt} (base : ℕ → ℕ) → UdpReach s t → IsFramed base s → IsFramed base t
unfolding thrclt_send_frames thrclt_ev_stat_print
UdpReach-IsFramed base here f = f
UdpReach-IsFramed base (ticks {t} calloc malloc r) f =
    send_frames-IsFramed calloc malloc base t.connrate t (UdpReach-IsFramed base r f)
UdpReach-IsFramed base (prints now r) f = UdpReach-IsFramed base r f
UdpReach-IsFramed base (writes {t} {v} now sendto fuel ks r e p) f =
    written-IsFramed base t v now ks
      (subst (FlowedTo t.comm_wr) e (
        comm_cb_udp_write-Flowed (plan_now t.ev_newconn now) (λ k w. (refl, refl)) sendto fuel
          t.comm_wr))
      p (UdpReach-IsFramed base r f)
