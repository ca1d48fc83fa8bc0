-- ===== src/Disk/Opening.antt =====
-- What becomes of a file that lib/libiapp/disk.c is asked to open.
use libiapp.Base.{ℕ, suc, ◌≡◌, true, false, Option, List, pos, arith, store}
use libiapp.Disk.State.{DiskWorld}
use libiapp.Disk.Handle.{disk_op_create, disk_open, is_unset}

-- disk_open of a handle that is not open, where calloc(3) succeeds, returns 0; but the handle is as it was, and
-- the operation that was made is not queued.
pub disk_open-unqueued :
    (strdup : Option (List ℕ)) (w : DiskWorld) (flags mode cb : ℕ)
    → is_unset w.fdd.fd ≡ true
    → (let v = disk_open true strdup w flags mode cb in
        (v.1 ≡ pos 0)
        × (v.0.fdd ≡ w.fdd)
        × ((v.0.ops w.next_op).is_queued ≡ false)
        × (v.0.next_op ≡ suc w.next_op))
unfolding disk_open disk_op_create store
disk_open-unqueued strdup w flags mode cb e =
    (ground arith, ground arith, ground arith, ground arith)
