-- ===== src/Fde/Soundness.antt =====
-- The invariant of the event loop under the calls of the API of lib/libiapp/fde.c.
use libiapp.Base.{ℕ, ◌≡◌, Bool, true, false, arith, Bool-cases, inl, inr, ℤ}
use libiapp.Fde.Event.{FdeHead, FdeType, update}
use libiapp.Fde.Register.{fde_free, fde_create}
use libiapp.Fde.Loop.{Step, adds, adds_timeout, deletes, frees, creates, Reach, here, next_call}
use libiapp.Fde.Invariant.{
  IsSound, fde_add-IsSound, fde_add_timeout-IsSound, fde_delete-IsSound, fde_delete_inactive,
}

-- Memory that holds no active event may be given back.
release-IsSound :
    (g : FdeHead) (i : ℕ)
    → IsSound g
    → (g.fdes i).is_active ≡ false
    → IsSound (record g { fdes = update g.fdes i (record (g.fdes i) { allocated = false }) })
unfolding update
release-IsSound g i v a = record {
  active = λ j. ground (arith, v.active j);
  callbacks = λ j. ground (arith, v.callbacks j);
  timers = λ j. ground (arith, v.timers j);
  active_once = v.active_once;
  callbacks_once = v.callbacks_once;
  timers_once = v.timers_once;
  alive = λ j b. ground (arith, v.alive j);
  made = λ j l. ground (arith, v.made j);
  typed = λ j l. ground (arith, v.typed j);
  room = v.room;
}

module _ {h : FdeHead} (v : IsSound h) where
  pub fde_free-IsSound : (i : ℕ) → (h.fdes i).allocated ≡ true → IsSound (fde_free h i)
  unfolding fde_free
  fde_free-IsSound i f = elim (Bool-cases (h.fdes i).is_active) [
    | inl a ↦ rw a (release-IsSound _ i (fde_delete-IsSound i v) (fde_delete_inactive i v f))
    | inr a ↦ rw a (release-IsSound h i v a)
  ]

  pub fde_create-IsSound :
      (calloc : Bool) (note_eof : ℕ) (fd : ℤ) (t : FdeType) (persist : Bool) (cb : ℕ)
      → IsSound (fde_create calloc note_eof h fd t persist cb).0
  unfolding fde_create
  fde_create-IsSound false note_eof fd t persist cb = v
  fde_create-IsSound true note_eof fd t persist cb = record {
    active = λ j. ground (arith, v.active j, v.alive j, v.made j);
    callbacks = λ j. ground (arith, v.callbacks j, v.alive j, v.made j);
    timers = λ j. ground (arith, v.timers j, v.alive j, v.made j);
    active_once = ground (arith, v.active_once);
    callbacks_once = ground (arith, v.callbacks_once);
    timers_once = ground (arith, v.timers_once);
    alive = λ j b. ground (arith, v.alive j);
    made = λ j l. ground (arith, v.made j);
    typed = λ j l. ground (arith, v.typed j);
    room = ground (arith, v.room);
  }

-- Every call of the API keeps the invariant.
pub Step-IsSound : {h g : FdeHead} → Step h g → IsSound h → IsSound g
Step-IsSound (adds i f) v = fde_add-IsSound i v f
Step-IsSound (adds_timeout i tv f t) v = fde_add_timeout-IsSound i v tv f t
Step-IsSound (deletes i f) v = fde_delete-IsSound i v
Step-IsSound (frees i f) v = fde_free-IsSound v i f
Step-IsSound (creates calloc note_eof fd t persist cb) v =
    fde_create-IsSound v calloc note_eof fd t persist cb

pub Reach-IsSound : {h g : FdeHead} → Reach h g → IsSound h → IsSound g
Reach-IsSound here v = v
Reach-IsSound (next_call r s) v = Step-IsSound s (Reach-IsSound r v)
