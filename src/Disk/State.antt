-- ===== src/Disk/State.antt =====
-- The structs of lib/libiapp/disk.h. Operations are addresses of a memory, which are given out once; the aio
-- control block is not looked at.
use libiapp.Base.{ℕ, Bool, Option, List, ℤ}
use libiapp.Fde.Event.{FdeHead}

pub data DiskOpType : Type 0 where
  disk_op_none disk_op_read disk_op_write disk_op_fsync disk_op_open disk_op_close : DiskOpType

-- `cb` stands for a callback with its argument.
pub record DiskOp : Type 0 where
  pub op : DiskOpType
  pub is_pending : Bool
  pub is_queued : Bool
  pub cb : ℕ
  pub retval : ℤ
  pub xerrno : ℕ
  pub filename : Option (List ℕ)
  pub mode : ℕ
  pub flags : ℕ

pub record Disk : Type 0 where
  pub fd : ℤ
  pub do_close : Bool
  pub op_queue : List ℕ
  pub op_pending : List ℕ
  pub ev_cleanup : ℕ
  pub close_cb : Option ℕ

-- The handle with its event loop and the operations in memory. `told` lists the close callbacks that were made,
-- `fds_closed` the descriptors that were closed, and `freed` says that the handle is gone.
pub record DiskWorld : Type 0 where
  pub fh : FdeHead
  pub fdd : Disk
  pub ops : ℕ → DiskOp
  pub next_op : ℕ
  pub told : List ℕ
  pub fds_closed : List ℤ
  pub freed : Bool
