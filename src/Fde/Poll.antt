-- ===== src/Fde/Poll.antt =====
-- fde_rw_runloop and fde_runloop of lib/libiapp/fde.c: the reports of the kernel, and a whole round.
pub mod Round
use libiapp.Base.{
  ℕ, suc, ◌+◌, ◌≤◌, ◌<◌, ◌≡◌, refl, inl, inr, Bool, true, false, ◌&&◌, Option, none, some, List, [],
  ◌∷◌, ◌++◌, arith, ◌==◌, if◌then◌else◌, Bool-cases, Option-cases, All, length, has, remove,
  has-remove, Distinct-remove,
}
use mathlib.Core.Path.{subst}
use libiapp.Fde.Event.{
  Fde, FdeHead, FdeType, read, write, callback, timer, user, is_callback, is_timer, update, Timeval,
}
use libiapp.Fde.Kq.{fde_kq_push, add_flags, delete_flags}
use libiapp.Fde.Register.{
  fde_add, add_as, fde_delete, delete_as, fde_free, fde_create, fde_rw_add, fde_ue_add, fde_cb_add,
  fde_rw_delete, fde_ue_delete, fde_cb_delete, fde_t_delete,
}
use libiapp.Fde.Timeout.{fde_add_timeout}
use libiapp.Fde.Loop.{
  Step, adds, adds_timeout, deletes, frees, creates, Reach, here, next_call, Program, Report,
  KeventResult, failed, reports, goes_on, complete, take_pending, fire, call_back, rw_step, rw_loop,
  fde_rw_runloop,
}
use libiapp.Fde.Invariant.{IsSound}
use libiapp.Fde.Soundness.{Reach-IsSound}
use libiapp.Fde.CallbackPass.{IsReady}
use libiapp.Fde.CallbackPass.Run.{fire-Reach}

-- Calls of the API give no event another type and take no address back.
pub record Kept (h g : FdeHead) : Type 0 where
  pub types : (j : ℕ) → j < h.next → (g.fdes j).f_type ≡ (h.fdes j).f_type
  pub grows : h.next ≤ g.next

module _ (h : FdeHead) (i : ℕ) where
  add_as-Kept : (t : FdeType) → Kept h (add_as t h i)
  unfolding add_as fde_ue_add fde_rw_add fde_kq_push add_flags fde_cb_add
  add_as-Kept callback = record { types = λ j l. ground arith; grows = ground arith }
  add_as-Kept _ = record { types = λ j l. ground arith; grows = ground arith }

  delete_as-Kept : (t : FdeType) → Kept h (delete_as t h i)
  unfolding delete_as fde_rw_delete fde_ue_delete fde_cb_delete fde_t_delete fde_kq_push
      delete_flags
  delete_as-Kept timer = record { types = λ j l. ground arith; grows = ground arith }
  delete_as-Kept _ = record { types = λ j l. ground arith; grows = ground arith }

  fde_free-Kept : Kept h (fde_free h i)
  unfolding fde_free update fde_delete
  fde_free-Kept =
      let k = delete_as-Kept (h.fdes i).f_type in
      record {
        types = λ j l. ground (arith, k.types j, k.types i);
        grows = ground (arith, k.grows);
      }

Step-Kept : {h g : FdeHead} → Step h g → Kept h g
unfolding fde_add fde_delete fde_add_timeout fde_create
Step-Kept {h} (adds i f) = add_as-Kept h i (h.fdes i).f_type
Step-Kept {h} (adds_timeout i tv f t) = record { types = λ j l. ground arith; grows = ground arith }
Step-Kept {h} (deletes i f) = delete_as-Kept h i (h.fdes i).f_type
Step-Kept {h} (frees i f) = fde_free-Kept h i
Step-Kept {h} (creates false note_eof fd t persist cb) = record {
  types = λ j l. refl;
  grows = omega arith;
}
Step-Kept {h} (creates true note_eof fd t persist cb) = record {
  types = λ j l. ground arith;
  grows = ground arith;
}

pub Reach-Kept : {h g : FdeHead} → Reach h g → Kept h g
Reach-Kept here = record { types = λ j l. refl; grows = omega arith }
Reach-Kept (next_call r s) =
    let k = Reach-Kept r in
    let k' = Step-Kept s in
    record { types = λ j l. ground (arith, k.types j, k'.types j, k.grows); grows = omega arith }

-- No event is freed on the way.
abbrev pub Spares : FdeHead → FdeHead → Type 0
Spares h g = (j : ℕ) → (h.fdes j).allocated ≡ true → (g.fdes j).allocated ≡ true

-- A report of the kernel names an event that is allocated, and neither a callback nor a timer: those
-- are never registered with it.
abbrev pub IsPolled : FdeHead → Report → Type 0
IsPolled h r =
    (i : ℕ)
    → r.udata ≡ some i
    → (i < h.next)
      × ((h.fdes i).allocated ≡ true)
      × (is_callback (h.fdes i).f_type ≡ false)
      × (is_timer (h.fdes i).f_type ≡ false)

IsPolled-Kept : {h g : FdeHead} (r : Report) → Kept h g → Spares h g → IsPolled h r → IsPolled g r
IsPolled-Kept {h} {g} r k s q i e =
    let (l, a, c, t) = q i e in
    (omega (arith, k.grows), s i a, rw (k.types i l) c, rw (k.types i l) t)

pub All-IsPolled :
    {h g : FdeHead} (rs : List Report)
    → Kept h g
    → Spares h g
    → All (IsPolled h) rs
    → All (IsPolled g) rs
All-IsPolled [] k s q = tt
All-IsPolled (r ∷ rs) k s q = (IsPolled-Kept r k s q.0, All-IsPolled rs k s q.1)

pub take_pending-IsReady : (h : FdeHead) → IsReady h → IsReady (take_pending h)
unfolding take_pending
take_pending-IsReady h v = record {
  sound = record {
    active = v.sound.active;
    callbacks = v.sound.callbacks;
    timers = v.sound.timers;
    active_once = v.sound.active_once;
    callbacks_once = v.sound.callbacks_once;
    timers_once = v.sound.timers_once;
    alive = v.sound.alive;
    made = v.sound.made;
    typed = v.sound.typed;
    room = omega arith;
  };
  current = record { stamp = v.current.stamp; bounded = v.current.bounded };
}

module _ (h : FdeHead) (i : ℕ) (v : IsReady h) where
  pub complete-IsReady :
      is_callback (h.fdes i).f_type ≡ false
      → is_timer (h.fdes i).f_type ≡ false
      → IsReady (complete h i)
  unfolding complete
  complete-IsReady nc nt = record {
    sound = record {
      active = λ j. ground (arith, v.sound.active j, has-remove j i h.f_head v.sound.active_once);
      callbacks = λ j. ground (arith, v.sound.callbacks j);
      timers = λ j. ground (arith, v.sound.timers j);
      active_once = ground (arith, Distinct-remove i h.f_head, v.sound.active_once);
      callbacks_once = ground (arith, v.sound.callbacks_once);
      timers_once = ground (arith, v.sound.timers_once);
      alive = λ j a. ground (arith, v.sound.alive j);
      made = λ j l. ground (arith, v.sound.made j);
      typed = λ j l. ground (arith, v.sound.typed j);
      room = ground (arith, v.sound.room);
    };
    current = record {
      stamp = λ j m. ground (arith, v.current.stamp j);
      bounded = ground (arith, v.current.bounded);
    };
  }

  pub complete-Kept : Kept h (complete h i)
  unfolding complete
  complete-Kept = record { types = λ j l. ground arith; grows = ground arith }

  pub complete-Spares : Spares h (complete h i)
  unfolding complete
  complete-Spares j a = ground (arith, a)

  pub complete-f_type : ((complete h i).fdes i).f_type ≡ (h.fdes i).f_type
  unfolding complete
  complete-f_type = ground arith
