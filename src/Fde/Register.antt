-- ===== src/Fde/Register.antt =====
-- lib/libiapp/fde.c: creating and freeing an event, and putting it on and off the queues.
use libiapp.Base.{
  ℕ, suc, Bool, true, false, Option, none, some, [], ◌∷◌, ◌++◌, ℤ, pos, if◌then◌else◌, remove,
}
use libiapp.Fde.Event.{
  FdeType, none_type, read, write, callback, timer, user, no_filter, evfilt_read, evfilt_write,
  evfilt_user, no_flags, zeroed, of_fd, of_fde, Kevent, Fde, FdeHead, put, update,
}
use libiapp.Fde.Kq.{fde_ev_flags, fde_kq_push, add_flags, delete_flags}

-- fde_rw_add.
unfoldable pub fde_rw_add : FdeHead → ℕ → FdeHead
unfolding update
fde_rw_add h i =
    let f = add_flags (h.fdes i) in
    let g = fde_kq_push h f.kev in
    if (h.fdes i).is_active
    then h
    else record (put g i (record f { is_active = true })) { f_head = g.f_head ++ i ∷ [] }

-- fde_rw_delete.
unfoldable pub fde_rw_delete : FdeHead → ℕ → FdeHead
unfolding update
fde_rw_delete h i =
    let f = delete_flags (h.fdes i) in
    let g = fde_kq_push h f.kev in
    if (h.fdes i).is_active
    then record (put g i (record f { is_active = false })) { f_head = remove i g.f_head }
    else h

-- fde_ue_add.
unfoldable pub fde_ue_add : FdeHead → ℕ → FdeHead
unfolding update
fde_ue_add h i =
    let f = add_flags (h.fdes i) in
    let g = fde_kq_push h f.kev in
    if (h.fdes i).is_active
    then h
    else record (put g i (record f { is_active = true })) { f_head = g.f_head ++ i ∷ [] }

-- fde_ue_delete.
unfoldable pub fde_ue_delete : FdeHead → ℕ → FdeHead
unfolding update
fde_ue_delete h i =
    let f = delete_flags (h.fdes i) in
    let g = fde_kq_push h f.kev in
    if (h.fdes i).is_active
    then record (put g i (record f { is_active = false })) { f_head = remove i g.f_head }
    else h

-- fde_cb_add.
unfoldable pub fde_cb_add : FdeHead → ℕ → FdeHead
unfolding update
fde_cb_add h i =
    let f = h.fdes i in
    if f.is_active
    then h
    else record (put h i (record f { is_active = true; f_cb_genid = h.f_cb_genid })) {
      f_head = h.f_head ++ i ∷ [];
      f_cb_head = h.f_cb_head ++ i ∷ [];
    }

-- fde_cb_delete.
unfoldable pub fde_cb_delete : FdeHead → ℕ → FdeHead
unfolding update
fde_cb_delete h i =
    let f = h.fdes i in
    if f.is_active
    then record (put h i (record f { is_active = false })) {
      f_head = remove i h.f_head;
      f_cb_head = remove i h.f_cb_head;
    }
    else h

-- fde_t_delete.
unfoldable pub fde_t_delete : FdeHead → ℕ → FdeHead
unfolding update
fde_t_delete h i =
    let f = h.fdes i in
    if f.is_active
    then record (put h i (record f { is_active = false })) {
      f_head = remove i h.f_head;
      f_t_head = remove i h.f_t_head;
    }
    else h

-- The dispatch of fde_add. An event of another type is reported on stderr and left alone.
unfoldable pub add_as : FdeType → FdeHead → ℕ → FdeHead
add_as read h i = fde_rw_add h i
add_as write h i = fde_rw_add h i
add_as callback h i = fde_cb_add h i
add_as user h i = fde_ue_add h i
add_as _ h i = h

unfoldable pub fde_add : FdeHead → ℕ → FdeHead
unfolding add_as
fde_add h i = add_as (h.fdes i).f_type h i

-- The dispatch of fde_delete.
unfoldable pub delete_as : FdeType → FdeHead → ℕ → FdeHead
delete_as read h i = fde_rw_delete h i
delete_as write h i = fde_rw_delete h i
delete_as callback h i = fde_cb_delete h i
delete_as timer h i = fde_t_delete h i
delete_as user h i = fde_ue_delete h i
delete_as _ h i = h

unfoldable pub fde_delete : FdeHead → ℕ → FdeHead
unfolding delete_as
fde_delete h i = delete_as (h.fdes i).f_type h i

-- fde_free: the event goes off the queues, then its memory is given back.
unfoldable pub fde_free : FdeHead → ℕ → FdeHead
unfolding update
fde_free h i =
    let g = if (h.fdes i).is_active then fde_delete h i else h in
    put g i (record (g.fdes i) { allocated = false })

-- A kevent of zero memory.
abbrev zero_kev : Kevent
zero_kev = record { ident = zeroed; filter = no_filter; flags = no_flags; fflags = 0; udata = none }

-- Memory in which no event has been created.
abbrev pub blank : Fde
blank = record {
  fd = pos 0;
  kev = zero_kev;
  f_type = none_type;
  persist = false;
  cb = 0;
  is_active = false;
  tv = record { tv_sec = 0; tv_usec = 0 };
  f_cb_genid = 0;
  allocated = false;
}

-- fde_ctx_new: `calloc` and `kqueue` say whether those two succeed.
unfoldable pub fde_ctx_new : (calloc kqueue : Bool) → Option FdeHead
fde_ctx_new true true = some (record {
  f_head = [];
  f_cb_head = [];
  f_t_head = [];
  pending = [];
  submitted = [];
  f_cb_genid = 0;
  fdes = λ i. blank;
  next = 0;
})
fde_ctx_new _ _ = none

-- The EV_SET of fde_create, by type; `none` for a type that is not implemented. `note_eof` is
-- NOTE_EOF of the system's headers, or 0 where they have none.
unfoldable pub initial_kev : ℕ → FdeType → Bool → ℤ → ℕ → Option Kevent
unfolding fde_ev_flags
initial_kev note_eof read persist fd i = some (record {
  ident = of_fd fd;
  filter = evfilt_read;
  flags = fde_ev_flags persist (record no_flags { ev_enable = true });
  fflags = note_eof;
  udata = some i;
})
initial_kev note_eof write persist fd i = some (record {
  ident = of_fd fd;
  filter = evfilt_write;
  flags = fde_ev_flags persist (record no_flags { ev_enable = true });
  fflags = 0;
  udata = some i;
})
initial_kev note_eof callback persist fd i = some zero_kev
initial_kev note_eof timer persist fd i = some zero_kev
initial_kev note_eof user persist fd i = some (record {
  ident = of_fde i;
  filter = evfilt_user;
  flags = fde_ev_flags persist (record no_flags { ev_enable = true });
  fflags = 0;
  udata = some i;
})
initial_kev note_eof _ persist fd i = none

abbrev created : FdeHead → ℤ → FdeType → Bool → ℕ → Kevent → FdeHead
created h fd t persist cb k =
    record (put h h.next (record {
      fd = fd;
      kev = k;
      f_type = t;
      persist = persist;
      cb = cb;
      is_active = false;
      tv = record { tv_sec = 0; tv_usec = 0 };
      f_cb_genid = 0;
      allocated = true;
    })) { next = suc h.next }

-- fde_create: `calloc` says whether the allocation succeeds; the new event's address is `next`.
unfoldable pub fde_create :
    (calloc : Bool) (note_eof : ℕ) → FdeHead → ℤ → FdeType → Bool → ℕ → FdeHead × Option ℕ
unfolding initial_kev update
fde_create false note_eof h fd t persist cb = (h, none)
fde_create true note_eof h fd t persist cb = elim (initial_kev note_eof t persist fd h.next) [
  | none ↦ (h, none)
  | some k ↦ (created h fd t persist cb k, some h.next)
]
