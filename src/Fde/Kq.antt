-- ===== src/Fde/Kq.antt =====
-- lib/libiapp/fde.c: the flags of a change, and the buffer of changes for the kernel.
use libiapp.Base.{
  ℕ, zero, suc, some, ◌-◌, Bool, true, false, [], ◌∷◌, ◌++◌, ltb, ℤ, pos, if◌then◌else◌, length,
}
use libiapp.Fde.Event.{EvFlags, no_flags, Kevent, of_fde, evfilt_user, Fde, FdeHead, maxevents}

-- fde_ev_flags: a persistent event is cleared after each report, another one fires once.
unfoldable pub fde_ev_flags : Bool → EvFlags → EvFlags
fde_ev_flags persist fl =
    if persist then record fl { ev_clear = true } else record fl { ev_oneshot = true }

-- fde_kq_flush: the buffer goes to the kernel when one slot is left.
unfoldable pub fde_kq_flush : FdeHead → FdeHead
fde_kq_flush h =
    if ltb (length h.pending) (maxevents - 1)
    then h
    else record h { submitted = h.submitted ++ h.pending; pending = [] }

-- fde_kq_push.
unfoldable pub fde_kq_push : FdeHead → Kevent → FdeHead
unfolding fde_kq_flush
fde_kq_push h k = let g = fde_kq_flush h in record g { pending = g.pending ++ k ∷ [] }

-- The flags of the change that fde_rw_add and fde_ue_add push: the mask keeps every bit but
-- EV_ENABLE, and EV_ADD and EV_ENABLE come in.
unfoldable pub add_flags : Fde → Fde
unfolding fde_ev_flags
add_flags f = record f { kev = record kev { flags = flags } }
  where
    open f use {kev, persist}

    masked : EvFlags
    masked = record (kev.flags) { ev_enable = false }

    flags : EvFlags
    flags = fde_ev_flags persist (record masked { ev_add = true; ev_enable = true })

-- The flags of the change that fde_rw_delete and fde_ue_delete push.
unfoldable pub delete_flags : Fde → Fde
delete_flags f = record f { kev = record kev { flags = flags } }
  where
    open f use {kev}

    flags : EvFlags
    flags = record (kev.flags) { ev_enable = false; ev_delete = true }

-- fde_ue_push, from another thread: one change goes to the kernel past the buffer. `trigger` is
-- NOTE_FFCOPY | NOTE_TRIGGER | 1, and `ret` is what kevent(2) returns; the call is a success where that is 1.
unfoldable pub fde_ue_push : (trigger : ℕ) (ret : ℤ) → FdeHead → ℕ → FdeHead × ℕ
fde_ue_push trigger ret h i = (
  record h {
    submitted =
        h.submitted
        ++ record {
          ident = of_fde i;
          filter = evfilt_user;
          flags = record no_flags { ev_enable = true; ev_oneshot = true };
          fflags = trigger;
          udata = some i;
        }
          ∷ [];
  },
  elim ret [ pos (suc zero) ↦ 1 | _ ↦ 0 ],
)
