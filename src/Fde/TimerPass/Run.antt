-- ===== src/Fde/TimerPass/Run.antt =====
-- The loop of fde_t_runloop in lib/libiapp/fde.c, run over any program: what it calls, and that it
-- ends.
use libiapp.Base.{
  ℕ, zero, suc, ◌≤◌, ◌<◌, ◌≡◌, refl, ◌⊎◌, inl, inr, Bool, true, false, Option, some, List, [], ◌∷◌,
  arith, Bool-cases, length, has, ℤ, has_head, remove-head,
}
use mathlib.Core.Path.{subst}
use libiapp.Fde.Event.{FdeHead, FdeType, timer, Timeval, update}
use libiapp.Fde.Register.{fde_add, fde_delete, fde_create}
use libiapp.Fde.Timeout.{timeval_cmp, lt_zero, fde_add_timeout}
use libiapp.Fde.Loop.{
  Step, adds, adds_timeout, deletes, frees, creates, Reach, here, next_call, Program, fire,
  fde_t_runloop,
}
use libiapp.Fde.Invariant.{IsSound}
use libiapp.Fde.Soundness.{Reach-IsSound}
use libiapp.Fde.CallbackPass.{IsReady, Reach-IsReady}
use libiapp.Fde.TimerPass.{
  due_count, due, due_count-insert_timer, due_count_same, Fewer-due, add_as-times, fde_delete-Fewer,
  fde_free-Fewer,
}

-- A call that arms no timer for a time that `now` has reached.
abbrev pub IsPatient : Timeval → {h g : FdeHead} → Step h g → Type 0
IsPatient now (adds i f) = Unit {0}
IsPatient now (adds_timeout i tv f t) = lt_zero (timeval_cmp now tv) ≡ true
IsPatient now (deletes i f) = Unit {0}
IsPatient now (frees i f) = Unit {0}
IsPatient now (creates calloc note_eof fd t persist cb) = Unit {0}

pub data Patient (now : Timeval) (h : FdeHead) : FdeHead → Type 0 where
  still : Patient now h h
  and_then : {g k : FdeHead} → Patient now h g → (s : Step g k) → IsPatient now s → Patient now h k

Patient-Reach : {now : Timeval} {h g : FdeHead} → Patient now h g → Reach h g
Patient-Reach still = here
Patient-Reach (and_then r s q) = next_call (Patient-Reach r) s

due_same :
    (now : Timeval) (h g : FdeHead)
    → g.f_t_head ≡ h.f_t_head
    → ((j : ℕ) → has j h.f_t_head ≡ true → (g.fdes j).tv ≡ (h.fdes j).tv)
    → due now g ≡ due now h
due_same now h g e times = rw e (due_count_same now h.fdes g.fdes h.f_t_head times)

add_timeout-due :
    (now : Timeval) (h : FdeHead) (i : ℕ) (tv : Timeval)
    → IsSound h
    → (h.fdes i).f_type ≡ timer
    → lt_zero (timeval_cmp now tv) ≡ true
    → due now (fde_add_timeout h i tv) ≤ due now h
unfolding fde_add_timeout update
add_timeout-due now h i tv v t late = elim (Bool-cases (h.fdes i).is_active) [
  | inl a ↦ rw a (omega arith)
  | inr a ↦
      let m = update h.fdes i (record (h.fdes i) { is_active = true; tv = tv }) in
      rw a (
        omega (
          arith,
          due_count-insert_timer now m tv i h.f_t_head (ground arith),
          due_count_same now h.fdes m h.f_t_head (λ j q. ground (arith, v.timers i)),
        ))
]

create-due :
    (now : Timeval) (h : FdeHead) (calloc : Bool) (note_eof : ℕ) (fd : ℤ) (t : FdeType)
    (persist : Bool) (cb : ℕ)
    → IsSound h
    → due now (fde_create calloc note_eof h fd t persist cb).0 ≤ due now h
unfolding fde_create update
create-due now h false note_eof fd t persist cb v = omega arith
create-due now h true note_eof fd t persist cb v =
    let g = (fde_create true note_eof h fd t persist cb).0 in
    let e : due now g ≡ due now h =
      due_same now h g (ground arith) (λ j a. ground (arith, v.timers j, v.alive j, v.made j)) in
    omega (arith, e)

Step-due :
    (now : Timeval) {h g : FdeHead}
    → IsSound h
    → (s : Step h g) → IsPatient now s
    → due now g ≤ due now h
unfolding fde_add
Step-due now {h} v (adds i f) q =
    let (list, times) = add_as-times h i (h.fdes i).f_type in
    omega (arith, due_same now h (fde_add h i) list (λ j a. times j))
Step-due now {h} v (adds_timeout i tv f t) q = add_timeout-due now h i tv v t q
Step-due now {h} v (deletes i f) q = Fewer-due now i (fde_delete-Fewer h i)
Step-due now {h} v (frees i f) q = Fewer-due now i (fde_free-Fewer h i)
Step-due now {h} v (creates calloc note_eof fd t persist cb) q =
    create-due now h calloc note_eof fd t persist cb v

Patient-due : {now : Timeval} {h g : FdeHead} → IsSound h → Patient now h g → due now g ≤ due now h
Patient-due v still = omega arith
Patient-due {now} v (and_then r s q) =
    omega (arith, Patient-due v r, Step-due now (Reach-IsSound (Patient-Reach r) v) s q)

-- No timer is queued, or the first one is not due.
abbrev pub IsCaughtUp : Timeval → FdeHead → Type 0
IsCaughtUp now h =
    (h.f_t_head ≡ [])
    ⊎ ((n : ℕ) × (rest : List ℕ) × (h.f_t_head ≡ n ∷ rest)
        × (lt_zero (timeval_cmp now (h.fdes n).tv) ≡ true))

due-cons :
    (now : Timeval) (h : FdeHead) (i : ℕ) (rest : List ℕ)
    → IsSound h
    → h.f_t_head ≡ i ∷ rest
    → lt_zero (timeval_cmp now (h.fdes i).tv) ≡ false
    → due now h ≡ suc (due now (fde_delete h i))
unfolding due_count
due-cons now h i rest v e d =
    let f = fde_delete-Fewer h i in
    let on : has i h.f_t_head ≡ true = rw e (has_head i rest) in
    let list : (fde_delete h i).f_t_head ≡ rest =
      ground (arith, f.list, v.timers i, on, e, remove-head i rest) in
    let same = due_count_same now h.fdes (fde_delete h i).fdes rest (λ j a. f.times j) in
    rw (list, same, e) (rw d (omega arith))

queued-allocated :
    {h : FdeHead} (i : ℕ) (rest : List ℕ)
    → IsSound h
    → h.f_t_head ≡ i ∷ rest
    → (h.fdes i).allocated ≡ true
queued-allocated {h} i rest v e =
    let on : has i h.f_t_head ≡ true = rw e (has_head i rest) in
    ground (arith, v.timers i, v.alive i)

module _ {W : Type 0} (p : Program W) where
  open p use {head, set_head, call, head-set_head}

  abbrev pub Ran : Timeval → ℕ → Option (List ℕ × W) → Type 0
  Ran now k r =
      (fired : List ℕ) × (w : W) × (r ≡ some (fired, w))
      × (length fired ≤ k)
      × IsReady (head w)
      × IsCaughtUp now (head w)

  t_loop_empty :
      (fuel : ℕ) (now : Timeval) (w : W)
      → (head w).f_t_head ≡ []
      → fde_t_runloop p (suc fuel) now w ≡ some ([], w)
  unfolding fde_t_runloop
  t_loop_empty fuel now w e = rw (e, fde_t_runloop)

  t_loop_stop :
      (fuel : ℕ) (now : Timeval) (n : ℕ) (rest : List ℕ) (w : W)
      → (head w).f_t_head ≡ n ∷ rest
      → lt_zero (timeval_cmp now ((head w).fdes n).tv) ≡ true
      → fde_t_runloop p (suc fuel) now w ≡ some ([], w)
  unfolding fde_t_runloop
  t_loop_stop fuel now n rest w e d = rw (e, fde_t_runloop) (rw d)

  t_loop_fire :
      (fuel : ℕ) (now : Timeval) (i : ℕ) (rest fired : List ℕ) (w w' : W)
      → (head w).f_t_head ≡ i ∷ rest
      → lt_zero (timeval_cmp now ((head w).fdes i).tv) ≡ false
      → fde_t_runloop p fuel now (fire p i (set_head (fde_delete (head w) i) w)) ≡ some (fired, w')
      → fde_t_runloop p (suc fuel) now w ≡ some (i ∷ fired, w')
  unfolding fde_t_runloop
  t_loop_fire fuel now i rest fired w w' e d r = rw (e, fde_t_runloop) (rw d (rw r))

  module _ (now : Timeval)
      (patient : (c i : ℕ) (w : W) → Patient now (head w) (head (call c i w))) where
    fire-Patient : (i : ℕ) (h : FdeHead) (w : W) → Patient now h (head (fire p i (set_head h w)))
    unfolding fire
    fire-Patient i h w =
        subst (λ g. Patient now g (head (fire p i (set_head h w)))) (head-set_head h w)
          (patient _ i (set_head h w))

    t_loop-Ran :
        (fuel : ℕ) (w : W) (xs : List ℕ)
        → (head w).f_t_head ≡ xs
        → IsReady (head w)
        → due now (head w) < fuel
        → Ran now (due now (head w)) (fde_t_runloop p fuel now w)
    t_loop-Ran zero w xs e v l = absurd (omega arith)
    t_loop-Ran (suc fuel) w [] e v l = ([], w, t_loop_empty fuel now w e, omega arith, v, inl e)
    t_loop-Ran (suc fuel) w (i ∷ rest) e v l =
        elim (Bool-cases (lt_zero (timeval_cmp now ((head w).fdes i).tv))) [
          | inl late ↦
              ([], w, t_loop_stop fuel now i rest w e late, omega arith, v, inr (i, rest, e, late))
          | inr late ↦
              let h = fde_delete (head w) i in
              let live : ((head w).fdes i).allocated ≡ true = queued-allocated i rest v.sound e in
              let ready = Reach-IsReady (next_call here (deletes i live)) v in
              let one = due-cons now (head w) i rest v.sound e late in
              let q = fire-Patient i h w in
              let fewer = Patient-due ready.sound q in
              let (fired, w', r, short, v', done) =
                t_loop-Ran fuel (fire p i (set_head h w)) _ refl
                  (Reach-IsReady (Patient-Reach q) ready) (omega arith) in
              (
                i ∷ fired,
                w',
                t_loop_fire fuel now i rest fired w w' e late r,
                omega arith,
                v',
                done,
              )
        ]

    -- On a loop that is sound and ready, if the callbacks arm timers for times after `now` only, fde_t_runloop ends, given one unit of
    -- fuel more than timers are due. It calls no more timers than were due when it started, leaves
    -- the loop sound and ready for the callbacks, and stops with no timer queued or with a first timer that is not due.
    pub fde_t_runloop-Ran :
        (fuel : ℕ) (w : W)
        → IsReady (head w)
        → due now (head w) < fuel
        → Ran now (due now (head w)) (fde_t_runloop p fuel now w)
    fde_t_runloop-Ran fuel w = t_loop-Ran fuel w _ refl
