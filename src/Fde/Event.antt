-- ===== src/Fde/Event.antt =====
-- The data of lib/libiapp/fde.h: events, kernel changes, and the state of one event loop. A
-- `struct fde *` is an address of `fdes`; `allocated` says
-- that its memory is allocated: fde_create returned it, and fde_free did not give it back. The flags of
-- a kevent are a record with one Boolean for each bit that fde.c names.
use libiapp.Base.{ℕ, Bool, true, false, Option, List, ℤ, ◌==◌, if◌then◌else◌}

pub data FdeType : Type 0 where
  none_type read write callback signal timer aio user : FdeType

pub data Filter : Type 0 where
  no_filter evfilt_read evfilt_write evfilt_user : Filter

pub record EvFlags : Type 0 where
  pub ev_add : Bool
  pub ev_delete : Bool
  pub ev_enable : Bool
  pub ev_clear : Bool
  pub ev_oneshot : Bool

abbrev pub no_flags : EvFlags
no_flags = record {
  ev_add = false;
  ev_delete = false;
  ev_enable = false;
  ev_clear = false;
  ev_oneshot = false;
}

-- The identifier of a kevent: zero memory, a descriptor, or the address of an event.
pub data Ident : Type 0 where
  zeroed : Ident
  of_fd : ℤ → Ident
  of_fde : ℕ → Ident

pub record Kevent : Type 0 where
  pub ident : Ident
  pub filter : Filter
  pub flags : EvFlags
  pub fflags : ℕ
  pub udata : Option ℕ

pub record Timeval : Type 0 where
  pub tv_sec : ℕ
  pub tv_usec : ℕ

-- `persist` is the bit FDE_F_PERSIST of `f_flags`. The callback is the number under which the
-- program's callbacks are found, and stands for `cb` with `cbdata`.
pub record Fde : Type 0 where
  pub fd : ℤ
  pub kev : Kevent
  pub f_type : FdeType
  pub persist : Bool
  pub cb : ℕ
  pub is_active : Bool
  pub tv : Timeval
  pub f_cb_genid : ℕ
  pub allocated : Bool

-- `submitted` lists the changes that were handed to the kernel, oldest first; `pending` holds the
-- first `pending.n` entries of `pending.kev_list`.
pub record FdeHead : Type 0 where
  pub f_head : List ℕ
  pub f_cb_head : List ℕ
  pub f_t_head : List ℕ
  pub pending : List Kevent
  pub submitted : List Kevent
  pub f_cb_genid : ℕ
  pub fdes : ℕ → Fde
  pub next : ℕ

abbrev pub maxevents : ℕ
maxevents = 128

-- A write to the memory of the event at `i`.
unfoldable pub update : (ℕ → Fde) → ℕ → Fde → ℕ → Fde
update m i f j = if i == j then f else m j

abbrev pub put : FdeHead → ℕ → Fde → FdeHead
put h i f = record h { fdes = update h.fdes i f }

abbrev pub is_callback : FdeType → Bool
is_callback callback = true
is_callback _ = false

abbrev pub is_timer : FdeType → Bool
is_timer timer = true
is_timer _ = false

-- The types that fde_create accepts.
abbrev pub implemented : FdeType → Bool
implemented none_type = false
implemented signal = false
implemented aio = false
implemented _ = true
