-- ===== src/Fde/Poll/Round.antt =====
-- fde_rw_runloop and fde_runloop of lib/libiapp/fde.c, run over any program.
use libiapp.Base.{
  ℕ, suc, ◌<◌, ◌≡◌, refl, ap, ◌∙◌, if_both, if_cases, not, true, false, Option, inl, inr, some,
  List, [], ◌∷◌, arith, ◌==◌, Bool-cases, Option-cases, All, length,
}
use mathlib.Core.Path.{subst, sym}
use libiapp.Fde.Event.{FdeHead, is_callback, is_timer, Timeval}
use libiapp.Fde.Loop.{
  Reach, Program, Report, KeventResult, failed, reports, goes_on, complete, take_pending, call_back,
  fire, if_active, rw_step, rw_loop, fde_rw_runloop, sleep_time, fde_runloop,
}
use libiapp.Fde.CallbackPass.{IsReady, Reach-IsReady}
use libiapp.Fde.CallbackPass.Run.{fire-Reach, fde_cb_runloop-Passed}
use libiapp.Fde.TimerPass.{due}
use libiapp.Fde.TimerPass.Run.{Patient, fde_t_runloop-Ran}
use libiapp.Fde.Poll.{
  Kept, Reach-Kept, Spares, IsPolled, All-IsPolled, take_pending-IsReady, complete-IsReady,
  complete-Kept, complete-Spares, complete-f_type,
}

module _ {W : Type 0} (p : Program W) where
  open p use {head, set_head, call, head-set_head}

  -- The callbacks of the events that the kernel reports, those that are no callbacks and no timers, free no event.
  abbrev pub IsSparing : Type 0
  IsSparing =
      (c i : ℕ) (w : W)
      → is_callback ((head w).fdes i).f_type ≡ false
      → is_timer ((head w).fdes i).f_type ≡ false
      → Spares (head w) (head (call c i w))

  module _ (sparing : IsSparing) where
    -- One report leaves the loop ready, and every later report as good as it was.
    abbrev Served : FdeHead → W → Type 0
    Served h w = IsReady (head w) × Kept h (head w) × Spares h (head w)

    call_back-Reach : (i : ℕ) (h : FdeHead) (w : W) → Reach h (head (call_back p i (set_head h w)))
    unfolding call_back
    call_back-Reach i h w = elim (Bool-cases (((head (set_head h w)).fdes i).cb == 0)) [
      | inl e ↦ rw e (rw head-set_head Reach.here)
      | inr e ↦ rw e (fire-Reach p i h w)
    ]

    call_back-Spares :
        (i : ℕ) (w : W)
        → is_callback ((head w).fdes i).f_type ≡ false
        → is_timer ((head w).fdes i).f_type ≡ false
        → Spares (head w) (head (call_back p i w))
    unfolding call_back fire
    call_back-Spares i w nc nt =
        if_both (λ u. Spares (head w) (head u)) (((head w).fdes i).cb == 0) (λ j a. a)
          (sparing ((head w).fdes i).cb i w nc nt)

    served :
        (i : ℕ) (w : W)
        → IsReady (head w)
        → is_callback ((head w).fdes i).f_type ≡ false
        → is_timer ((head w).fdes i).f_type ≡ false
        → Served (head w) (call_back p i (set_head (complete (head w) i) w))
    served i w v nc nt =
        let h = complete (head w) i in
        let k = complete-Kept (head w) i v in
        let r = call_back-Reach i h w in
        let k' = Reach-Kept r in
        let e = head-set_head h w in
        let s =
          call_back-Spares i (set_head h w)
            (ap (λ g. is_callback (g.fdes i).f_type) e
              ∙ ap is_callback (complete-f_type (head w) i v)
              ∙ nc)
            (ap (λ g. is_timer (g.fdes i).f_type) e
              ∙ ap is_timer (complete-f_type (head w) i v)
              ∙ nt) in
        (
          Reach-IsReady r (complete-IsReady (head w) i v nc nt),
          record {
            types = λ j l. ground (arith, k.types j, k'.types j, k.grows);
            grows = omega (arith, k.grows, k'.grows);
          },
          λ j a. s j (ap (λ g. (g.fdes j).allocated) e ∙ complete-Spares (head w) i v j a),
        )

    -- The result of one report.
    abbrev Gives : W → Option W → Type 0
    Gives w r = (u : W) × (r ≡ some u) × Served (head w) u

    if_active-Served :
        (i : ℕ) (w : W)
        → IsReady (head w)
        → ((head w).fdes i).allocated ≡ true
        → is_callback ((head w).fdes i).f_type ≡ false
        → is_timer ((head w).fdes i).f_type ≡ false
        → Gives w (if_active p i w)
    unfolding if_active
    if_active-Served i w v a nc nt =
        if_cases (Gives w) (not ((head w).fdes i).allocated) (λ e. absurd (ground (arith, e, a)))
          (λ e.
            if_both (Gives w) ((head w).fdes i).is_active (_, refl, served i w v nc nt)
              (w, refl, (v, record { types = λ j l. refl; grows = omega arith }, λ j b. b)))

    rw_step-Served :
        (r : Report) (w : W) → IsReady (head w) → IsPolled (head w) r → Gives w (rw_step p r w)
    unfolding rw_step
    rw_step-Served r w v q =
        let unchanged : Gives w (some w) =
          (w, refl, (v, record { types = λ j l. refl; grows = omega arith }, λ j a. a)) in
        elim (Option-cases r.udata) [
          | inl e ↦ rw (e, rw_step) unchanged
          | inr (i, e) ↦
              let (l, a, nc, nt) = q i e in
              let go = if_active-Served i w v a nc nt in
              rw (e, rw_step) (if_both (Gives w) (goes_on r.error) go unchanged)
        ]

    -- The result of a batch of reports.
    abbrev pub Readies : Option W → Type 0
    Readies r = (u : W) × (r ≡ some u) × IsReady (head u)

    rw_loop-IsReady :
        (rs : List Report) (w : W)
        → IsReady (head w)
        → All (IsPolled (head w)) rs
        → Readies (rw_loop p rs w)
    unfolding rw_loop
    rw_loop-IsReady [] w v q = (w, refl, v)
    rw_loop-IsReady (r ∷ rs) w v q =
        let (u, e, (v', k, s)) = rw_step-Served r w v q.0 in
        rw (e, rw_loop) (rw_loop-IsReady rs u v' (All-IsPolled rs k s q.1))

  -- What the kernel reports names events that were registered with it.
  abbrev pub IsAnswer : FdeHead → KeventResult → Type 0
  IsAnswer h failed = Unit {0}
  IsAnswer h (reports rs) = All (IsPolled h) rs

  fde_rw_runloop-IsReady :
      (sparing : IsSparing) (r : KeventResult) (w : W)
      → IsReady (head w)
      → IsAnswer (head w) r
      → Readies sparing (fde_rw_runloop p r w)
  unfolding fde_rw_runloop take_pending
  fde_rw_runloop-IsReady sparing failed w v q =
      (_, refl, rw head-set_head (take_pending-IsReady (head w) v))
  fde_rw_runloop-IsReady sparing (reports rs) w v q =
      let h = take_pending (head w) in
      let e = sym (head-set_head h w) in
      rw_loop-IsReady sparing rs (set_head h w) (subst IsReady e (take_pending-IsReady (head w) v))
        (subst (λ g. All (IsPolled g) rs) e
          (All-IsPolled {h = head w} {g = h} rs
            (record { types = λ j l. refl; grows = omega arith }) (λ j a. a) q))

  -- A round of fde_runloop comes back, given one unit of fuel more than callbacks are queued and
  -- enough for the timers that are then due, and leaves the loop sound and ready for the next round;
  -- provided that no callback arms a timer for a time that the round's clock has reached, that the
  -- kernel reports only events that are allocated and are no callbacks and no timers, and that the callbacks of
  -- such events free no event; so none is read that was freed.
  pub fde_runloop-IsReady :
      (kevent : ℕ × ℕ → W → KeventResult)
      → ((t : ℕ × ℕ) (w : W) → IsAnswer (head w) (kevent t w))
      → IsSparing
      → (now timeout : Timeval) → ((c i : ℕ) (w : W) → Patient now (head w) (head (call c i w)))
      → (cb_fuel : ℕ) (w : W) → IsReady (head w)
      → length (head w).f_cb_head < cb_fuel
      → (t_fuel : ℕ) × (w' : W) × (fde_runloop p kevent cb_fuel t_fuel now timeout w ≡ some w')
        × IsReady (head w')
  unfolding fde_runloop
  fde_runloop-IsReady kevent answers sparing now timeout patient cb_fuel w v l =
      let (called, w1, e1, sub, sound, current) =
        fde_cb_runloop-Passed p cb_fuel w v.sound v.current l in
      let t_fuel = suc (due now (head w1)) in
      let (ran, w2, e2, short, v2, done) =
        fde_t_runloop-Ran p now patient t_fuel w1 (record { sound = sound; current = current })
          (omega arith) in
      let (w3, e3, v3) =
        fde_rw_runloop-IsReady sparing (kevent (sleep_time p now timeout w2) w2) w2 v2
          (answers (sleep_time p now timeout w2) w2) in
      (t_fuel, w3, rw (e1, fde_runloop) (rw e2 e3), v3)
