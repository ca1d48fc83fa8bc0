-- ===== src/Fde/Changes.antt =====
-- The changes that lib/libiapp/fde.c hands to the kernel.
use libiapp.Base.{
  ℕ, ◌<◌, ◌≡◌, refl, ap, ◌∙◌, inl, inr, Bool, true, false, List, [], ◌∷◌, ◌++◌, append_assoc, arith,
  ltb, ◌-◌, Bool-cases, length, has, ℤ, some,
}
use libiapp.Fde.Event.{Kevent, FdeHead, FdeType, read, write, user, Fde, maxevents, update}
use libiapp.Fde.Kq.{fde_kq_push, add_flags, delete_flags}
use libiapp.Fde.Register.{
  fde_rw_add, fde_rw_delete, fde_ue_add, fde_ue_delete, add_as, fde_add, delete_as, fde_delete,
  fde_free, fde_create,
}
use libiapp.Fde.Invariant.{IsSound, fde_kq_push_room}
use libiapp.Fde.Soundness.{fde_free-IsSound}

-- All changes so far, those that the kernel has taken first.
abbrev pub changes : FdeHead → List Kevent
changes h = h.submitted ++ h.pending

push_equation : (h : FdeHead) (k : Kevent) → changes (fde_kq_push h k) ≡ changes h ++ k ∷ []
unfolding fde_kq_push
push_equation h k = elim (Bool-cases (ltb (length h.pending) (maxevents - 1))) [
  | inl e ↦ rw e (rw append_assoc refl)
  | inr e ↦ rw e refl
]

-- A push onto a buffer that is not full loses no change, keeps their order, and does not fill the
-- buffer of 128.
fde_kq_push-changes :
    (h : FdeHead) (k : Kevent)
    → length h.pending < maxevents
    → (changes (fde_kq_push h k) ≡ changes h ++ k ∷ [])
      × (length (fde_kq_push h k).pending < maxevents)
fde_kq_push-changes h k r = (push_equation h k, fde_kq_push_room h k r)

-- An event that the kernel knows of: of a descriptor, or of a user trigger.
abbrev pub is_kernel : FdeType → Bool
is_kernel read = true
is_kernel write = true
is_kernel user = true
is_kernel _ = false

module _ (h : FdeHead) (i : ℕ) where
  rw_add-changes :
      (h.fdes i).is_active ≡ false
      → changes (fde_rw_add h i) ≡ changes h ++ (add_flags (h.fdes i)).kev ∷ []
  unfolding fde_rw_add add_flags
  rw_add-changes a = rw a (push_equation h (add_flags (h.fdes i)).kev)

  add_as-changes :
      (t : FdeType)
      → is_kernel t ≡ true
      → (h.fdes i).is_active ≡ false
      → changes (add_as t h i) ≡ changes h ++ (add_flags (h.fdes i)).kev ∷ []
  unfolding add_as fde_ue_add fde_rw_add
  add_as-changes read e a = rw_add-changes a
  add_as-changes write e a = rw_add-changes a
  add_as-changes user e a = rw_add-changes a
  add_as-changes _ e a = cc

  -- What fde_delete leaves in the event: inactive, of its type, with EV_DELETE in its change.
  abbrev Deleted : FdeHead → Type 0
  Deleted g =
      ((g.fdes i).is_active ≡ false)
      × ((g.fdes i).f_type ≡ (h.fdes i).f_type)
      × ((g.fdes i).kev.flags.ev_delete ≡ true)

  delete_as-Deleted :
      (t : FdeType) → is_kernel t ≡ true → (h.fdes i).is_active ≡ true → Deleted (delete_as t h i)
  unfolding delete_as fde_ue_delete fde_rw_delete delete_flags
  delete_as-Deleted read e a = ground arith
  delete_as-Deleted write e a = ground arith
  delete_as-Deleted user e a = ground arith
  delete_as-Deleted _ e a = cc

add_flags-bits :
    (f : Fde)
    → ((add_flags f).kev.flags.ev_add ≡ true)
      × ((add_flags f).kev.flags.ev_enable ≡ true)
      × ((add_flags f).kev.flags.ev_delete ≡ f.kev.flags.ev_delete)
      × ((add_flags f).kev.udata ≡ f.kev.udata)
unfolding add_flags
add_flags-bits f = ground arith

-- Deleting an active event of the kernel and adding it again hands the kernel a change that asks
-- for EV_ADD and for EV_DELETE at once: fde_rw_delete and fde_ue_delete set EV_DELETE in the event's
-- own kevent, and nothing takes it out.
pub add-delete_deletes :
    (h : FdeHead) (i : ℕ)
    → is_kernel (h.fdes i).f_type ≡ true
    → (h.fdes i).is_active ≡ true
    → (k : Kevent) × (changes (fde_add (fde_delete h i) i) ≡ changes (fde_delete h i) ++ k ∷ [])
      × (k.flags.ev_add ≡ true)
      × (k.flags.ev_delete ≡ true)
unfolding fde_add fde_delete
add-delete_deletes h i t a =
    let g = fde_delete h i in
    let (off, same, flag) = delete_as-Deleted h i (h.fdes i).f_type t a in
    let (adds, enables, deletes, _) = add_flags-bits (g.fdes i) in
    (
      (add_flags (g.fdes i)).kev,
      add_as-changes g i (g.fdes i).f_type (rw same t) off,
      adds,
      deletes ∙ flag,
    )

-- A new event of the kernel as fde_create leaves it.
create_new :
    (h : FdeHead) (note_eof : ℕ) (fd : ℤ) (t : FdeType) (persist : Bool) (cb : ℕ)
    → is_kernel t ≡ true
    → let g = (fde_create true note_eof h fd t persist cb).0 in
      let f = g.fdes h.next in
      (f.is_active ≡ false)
      × (f.f_type ≡ t)
      × (f.kev.flags.ev_delete ≡ false)
      × (f.kev.udata ≡ some h.next)
      × (changes g ≡ changes h)
unfolding fde_create
create_new h note_eof fd read persist cb e = ground arith
create_new h note_eof fd write persist cb e = ground arith
create_new h note_eof fd user persist cb e = ground arith
create_new h note_eof fd _ persist cb e = cc

-- The first registration of a new event hands the kernel one change, which asks for EV_ADD and not
-- for EV_DELETE and carries the event's address.
add-create_adds :
    (h : FdeHead) (note_eof : ℕ) (fd : ℤ) (t : FdeType) (persist : Bool) (cb : ℕ)
    → is_kernel t ≡ true
    → let g = (fde_create true note_eof h fd t persist cb).0 in
      (k : Kevent) × (changes (fde_add g h.next) ≡ changes h ++ k ∷ [])
      × (k.flags.ev_add ≡ true)
      × (k.flags.ev_delete ≡ false)
      × (k.udata ≡ some h.next)
unfolding fde_add
add-create_adds h note_eof fd t persist cb e =
    let g = (fde_create true note_eof h fd t persist cb).0 in
    let (off, same, flag, udata, old) = create_new h note_eof fd t persist cb e in
    let (adds, enables, deletes, address) = add_flags-bits (g.fdes h.next) in
    let k = (add_flags (g.fdes h.next)).kev in
    (
      k,
      add_as-changes g h.next (g.fdes h.next).f_type (rw same e) off ∙ ap (λ l. l ++ k ∷ []) old,
      adds,
      deletes ∙ flag,
      address ∙ udata,
    )

-- fde_free takes an event of a sound loop off every queue before its memory goes: none refers to it afterwards.
pub fde_free_gone :
    (h : FdeHead) (i : ℕ)
    → IsSound h
    → (h.fdes i).allocated ≡ true
    → let g = fde_free h i in
      ((g.fdes i).allocated ≡ false)
      × (has i g.f_head ≡ false)
      × (has i g.f_cb_head ≡ false)
      × (has i g.f_t_head ≡ false)
unfolding fde_free update
fde_free_gone h i v f =
    let s = fde_free-IsSound v i f in
    ground (arith, s.active i, s.callbacks i, s.timers i, s.alive i)
