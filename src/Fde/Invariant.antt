-- ===== src/Fde/Invariant.antt =====
-- The invariant of an event loop: what the queues of fde.c say of the events, and the other way
-- round.
use libiapp.Base.{
  ℕ, ◌≤◌, ◌<◌, ◌≡◌, refl, true, false, ◌&&◌, [], ◌∷◌, arith, has, Distinct, length, has-snoc,
  has-remove, Distinct-snoc, Distinct-remove, length-append,
}
use libiapp.Fde.Event.{
  FdeHead, Kevent, Timeval, FdeType, none_type, read, write, callback, signal, timer, aio, user,
  is_callback, is_timer, implemented, maxevents, update,
}
use libiapp.Fde.Kq.{fde_kq_push, add_flags, delete_flags}
use libiapp.Fde.Register.{
  fde_rw_add, fde_rw_delete, fde_ue_add, fde_ue_delete, fde_cb_add, fde_cb_delete, fde_t_delete,
  fde_add, add_as, fde_delete, delete_as,
}
use libiapp.Fde.Timeout.{fde_add_timeout}
use libiapp.Fde.TimerQueue.{has-insert_timer, Distinct-insert_timer}

-- `active` lists exactly the active events, `f_cb_head` the active callbacks and `f_t_head` the
-- active timers, each once; an active event is allocated memory, of a type that
-- fde_create accepts; one slot of the buffer of changes stays unused.
pub record IsSound (h : FdeHead) : Type 0 where
  pub active : (i : ℕ) → has i h.f_head ≡ (h.fdes i).is_active
  pub callbacks :
      (i : ℕ) → has i h.f_cb_head ≡ ((h.fdes i).is_active && is_callback (h.fdes i).f_type)
  pub timers : (i : ℕ) → has i h.f_t_head ≡ ((h.fdes i).is_active && is_timer (h.fdes i).f_type)
  pub active_once : Distinct h.f_head
  pub callbacks_once : Distinct h.f_cb_head
  pub timers_once : Distinct h.f_t_head
  pub alive : (i : ℕ) → (h.fdes i).is_active ≡ true → (h.fdes i).allocated ≡ true
  pub made : (i : ℕ) → h.next ≤ i → (h.fdes i).allocated ≡ false
  pub typed : (i : ℕ) → (h.fdes i).allocated ≡ true → implemented (h.fdes i).f_type ≡ true
  pub room : length h.pending < maxevents

-- The buffer never overflows.
pub fde_kq_push_room :
    (h : FdeHead) (k : Kevent)
    → length h.pending < maxevents
    → length (fde_kq_push h k).pending < maxevents
unfolding fde_kq_push
fde_kq_push_room h k r = ground (arith, length-append h.pending (k ∷ []))

module _ {h : FdeHead} (i : ℕ) (v : IsSound h) where
  fde_rw_add-IsSound :
      (h.fdes i).allocated ≡ true
      → is_callback (h.fdes i).f_type ≡ false
      → is_timer (h.fdes i).f_type ≡ false
      → IsSound (fde_rw_add h i)
  unfolding fde_rw_add fde_kq_push add_flags
  fde_rw_add-IsSound f nc nt = record {
    active = λ j. ground (arith, v.active j, has-snoc j i h.f_head);
    callbacks = λ j. ground (arith, v.callbacks j);
    timers = λ j. ground (arith, v.timers j);
    active_once = ground (arith, v.active i, Distinct-snoc i h.f_head, v.active_once);
    callbacks_once = ground (arith, v.callbacks_once);
    timers_once = ground (arith, v.timers_once);
    alive = λ j a. ground (arith, v.alive j);
    made = λ j l. ground (arith, v.made j);
    typed = λ j l. ground (arith, v.typed j);
    room = ground (arith, v.room, length-append h.pending ((add_flags (h.fdes i)).kev ∷ []));
  }

  fde_rw_delete-IsSound :
      is_callback (h.fdes i).f_type ≡ false
      → is_timer (h.fdes i).f_type ≡ false
      → IsSound (fde_rw_delete h i)
  unfolding fde_rw_delete fde_kq_push delete_flags
  fde_rw_delete-IsSound nc nt = record {
    active = λ j. ground (arith, v.active j, has-remove j i h.f_head v.active_once);
    callbacks = λ j. ground (arith, v.callbacks j);
    timers = λ j. ground (arith, v.timers j);
    active_once = ground (arith, Distinct-remove i h.f_head, v.active_once);
    callbacks_once = ground (arith, v.callbacks_once);
    timers_once = ground (arith, v.timers_once);
    alive = λ j a. ground (arith, v.alive j);
    made = λ j l. ground (arith, v.made j);
    typed = λ j l. ground (arith, v.typed j);
    room = ground (arith, v.room, length-append h.pending ((delete_flags (h.fdes i)).kev ∷ []));
  }

  fde_cb_add-IsSound :
      (h.fdes i).allocated ≡ true → (h.fdes i).f_type ≡ callback → IsSound (fde_cb_add h i)
  unfolding fde_cb_add
  fde_cb_add-IsSound f t = record {
    active = λ j. ground (arith, v.active j, has-snoc j i h.f_head);
    callbacks = λ j. ground (arith, v.callbacks j, has-snoc j i h.f_cb_head);
    timers = λ j. ground (arith, v.timers j);
    active_once = ground (arith, v.active i, Distinct-snoc i h.f_head, v.active_once);
    callbacks_once = ground (arith, v.callbacks i, Distinct-snoc i h.f_cb_head, v.callbacks_once);
    timers_once = ground (arith, v.timers_once);
    alive = λ j a. ground (arith, v.alive j);
    made = λ j l. ground (arith, v.made j);
    typed = λ j l. ground (arith, v.typed j);
    room = ground (arith, v.room);
  }

  fde_cb_delete-IsSound : (h.fdes i).f_type ≡ callback → IsSound (fde_cb_delete h i)
  unfolding fde_cb_delete
  fde_cb_delete-IsSound t = record {
    active = λ j. ground (arith, v.active j, has-remove j i h.f_head v.active_once);
    callbacks = λ j. ground (arith, v.callbacks j, has-remove j i h.f_cb_head v.callbacks_once);
    timers = λ j. ground (arith, v.timers j);
    active_once = ground (arith, Distinct-remove i h.f_head, v.active_once);
    callbacks_once = ground (arith, Distinct-remove i h.f_cb_head, v.callbacks_once);
    timers_once = ground (arith, v.timers_once);
    alive = λ j a. ground (arith, v.alive j);
    made = λ j l. ground (arith, v.made j);
    typed = λ j l. ground (arith, v.typed j);
    room = ground (arith, v.room);
  }

  fde_t_delete-IsSound : (h.fdes i).f_type ≡ timer → IsSound (fde_t_delete h i)
  unfolding fde_t_delete
  fde_t_delete-IsSound t = record {
    active = λ j. ground (arith, v.active j, has-remove j i h.f_head v.active_once);
    callbacks = λ j. ground (arith, v.callbacks j);
    timers = λ j. ground (arith, v.timers j, has-remove j i h.f_t_head v.timers_once);
    active_once = ground (arith, Distinct-remove i h.f_head, v.active_once);
    callbacks_once = ground (arith, v.callbacks_once);
    timers_once = ground (arith, Distinct-remove i h.f_t_head, v.timers_once);
    alive = λ j a. ground (arith, v.alive j);
    made = λ j l. ground (arith, v.made j);
    typed = λ j l. ground (arith, v.typed j);
    room = ground (arith, v.room);
  }

  pub fde_add_timeout-IsSound :
      (tv : Timeval)
      → (h.fdes i).allocated ≡ true
      → (h.fdes i).f_type ≡ timer
      → IsSound (fde_add_timeout h i tv)
  unfolding fde_add_timeout
  fde_add_timeout-IsSound tv f t =
      let m = update h.fdes i (record (h.fdes i) { is_active = true; tv = tv }) in
      record {
        active = λ j. ground (arith, v.active j, has-snoc j i h.f_head);
        callbacks = λ j. ground (arith, v.callbacks j);
        timers = λ j. ground (arith, v.timers j, has-insert_timer m tv i j h.f_t_head);
        active_once = ground (arith, v.active i, Distinct-snoc i h.f_head, v.active_once);
        callbacks_once = ground (arith, v.callbacks_once);
        timers_once =
            ground (arith, v.timers i, Distinct-insert_timer m tv i h.f_t_head, v.timers_once);
        alive = λ j a. ground (arith, v.alive j);
        made = λ j l. ground (arith, v.made j);
        typed = λ j l. ground (arith, v.typed j);
        room = ground (arith, v.room);
      }

  add_as-IsSound :
      (t : FdeType) → (h.fdes i).f_type ≡ t → (h.fdes i).allocated ≡ true → IsSound (add_as t h i)
  unfolding add_as fde_ue_add fde_rw_add
  add_as-IsSound read e f = fde_rw_add-IsSound f (ground arith) (ground arith)
  add_as-IsSound write e f = fde_rw_add-IsSound f (ground arith) (ground arith)
  add_as-IsSound callback e f = fde_cb_add-IsSound f e
  add_as-IsSound user e f = fde_rw_add-IsSound f (ground arith) (ground arith)
  add_as-IsSound _ e f = v

  delete_as-IsSound : (t : FdeType) → (h.fdes i).f_type ≡ t → IsSound (delete_as t h i)
  unfolding delete_as fde_ue_delete fde_rw_delete
  delete_as-IsSound read e = fde_rw_delete-IsSound (ground arith) (ground arith)
  delete_as-IsSound write e = fde_rw_delete-IsSound (ground arith) (ground arith)
  delete_as-IsSound callback e = fde_cb_delete-IsSound e
  delete_as-IsSound timer e = fde_t_delete-IsSound e
  delete_as-IsSound user e = fde_rw_delete-IsSound (ground arith) (ground arith)
  delete_as-IsSound _ e = v

  pub fde_add-IsSound : (h.fdes i).allocated ≡ true → IsSound (fde_add h i)
  unfolding fde_add
  fde_add-IsSound f = add_as-IsSound (h.fdes i).f_type refl f

  pub fde_delete-IsSound : IsSound (fde_delete h i)
  unfolding fde_delete
  fde_delete-IsSound = delete_as-IsSound (h.fdes i).f_type refl

  delete_as_inactive :
      (t : FdeType)
      → (h.fdes i).f_type ≡ t
      → implemented t ≡ true
      → ((delete_as t h i).fdes i).is_active ≡ false
  unfolding delete_as fde_rw_delete fde_ue_delete fde_cb_delete fde_t_delete
  delete_as_inactive read e m = ground arith
  delete_as_inactive write e m = ground arith
  delete_as_inactive callback e m = ground arith
  delete_as_inactive timer e m = ground arith
  delete_as_inactive user e m = ground arith
  delete_as_inactive none_type e m = cc
  delete_as_inactive signal e m = cc
  delete_as_inactive aio e m = cc

  -- After fde_delete the event is inactive.
  pub fde_delete_inactive :
      (h.fdes i).allocated ≡ true → ((fde_delete h i).fdes i).is_active ≡ false
  unfolding fde_delete
  fde_delete_inactive f = delete_as_inactive (h.fdes i).f_type refl (v.typed i f)
