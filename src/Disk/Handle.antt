-- ===== src/Disk/Handle.antt =====
-- The functions of lib/libiapp/disk.c.
use libiapp.Base.{
  ℕ, zero, suc, Bool, true, false, Option, none, some, List, [], ◌∷◌, ◌++◌, ℤ, pos, negsuc,
  minus_one, if◌then◌else◌, store,
}
use libiapp.Fde.Event.{FdeHead, callback}
use libiapp.Fde.Register.{fde_create, fde_free}
use libiapp.Disk.State.{DiskOpType, disk_op_open, Disk, DiskWorld}

-- disk_op_create, where calloc(3) succeeds.
unfoldable pub disk_op_create : DiskWorld → DiskOpType → (cb : ℕ) → DiskWorld × ℕ
unfolding store
disk_op_create w ot cb = (
  record w {
    ops = store w.ops w.next_op (record {
      op = ot;
      is_pending = false;
      is_queued = false;
      cb = cb;
      retval = pos 0;
      xerrno = 0;
      filename = none;
      mode = 0;
      flags = 0;
    });
    next_op = suc w.next_op;
  },
  w.next_op,
)

-- disk_op_queue.
unfoldable pub disk_op_queue : DiskWorld → (op : ℕ) → DiskWorld
unfolding store
disk_op_queue w op = record w {
  ops = store w.ops op (record (w.ops op) { is_queued = true });
  fdd = record (w.fdd) { op_queue = w.fdd.op_queue ++ op ∷ [] };
}

abbrev pub calls_of : Option ℕ → List ℕ
calls_of none = []
calls_of (some cb) = cb ∷ []

-- disk_cb_cleanup.
unfoldable pub disk_cb_cleanup : DiskWorld → DiskWorld
disk_cb_cleanup w = record w {
  told = w.told ++ calls_of w.fdd.close_cb;
  fds_closed = if w.fdd.do_close then w.fds_closed ++ w.fdd.fd ∷ [] else w.fds_closed;
  fh = fde_free w.fh w.fdd.ev_cleanup;
  freed = true;
}

-- disk_create. `cleanup_cb` is disk_cb_cleanup.
unfoldable pub disk_create :
    (calloc calloc_ev : Bool) (note_eof cleanup_cb : ℕ)
    → FdeHead
    → (cb : Option ℕ) → FdeHead × Option Disk
disk_create calloc calloc_ev note_eof cleanup_cb fh cb =
    let (g, ev) = fde_create calloc_ev note_eof fh minus_one callback false cleanup_cb in
    if calloc
    then elim ev [
      | none ↦ (g, none)
      | some i ↦ (
        g,
        some (record {
          fd = minus_one;
          do_close = true;
          op_queue = [];
          op_pending = [];
          ev_cleanup = i;
          close_cb = cb;
        }),
      )
    ]
    else (fh, none)

-- Is the descriptor -1?
abbrev pub is_unset : ℤ → Bool
is_unset (negsuc zero) = true
is_unset _ = false

-- disk_open. The operation is filled in and queued nowhere.
unfoldable pub disk_open :
    (calloc : Bool) (strdup : Option (List ℕ)) → DiskWorld → (flags mode cb : ℕ) → DiskWorld × ℤ
unfolding disk_op_create store
disk_open calloc strdup w flags mode cb =
    if is_unset w.fdd.fd
    then (if calloc
        then (let (v, op) = disk_op_create w disk_op_open cb in
            (
              record v {
                ops =
                    store v.ops op
                      (record (v.ops op) { filename = strdup; mode = mode; flags = flags });
              },
              pos 0,
            ))
        else (w, minus_one))
    else (w, minus_one)
