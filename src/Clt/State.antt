-- ===== src/Clt/State.antt =====
-- The data of src/clt/clt.c: the connections of one thread, and the thread. The states of a connection are
-- those of lib/libiapp/conn.h, in the same order. A connection is the address of its struct; the callback
-- of every connection is thrclt_conn_update_cb with its thread, which is all that is ever passed.
use libiapp.Base.{ℕ, suc, Bool, Option, none, some, List, [], ◌∷◌, ◌++◌, ℤ, if◌then◌else◌, store}
use libiapp.Fde.Event.{FdeHead}
use libiapp.Netbuf.State.{NetHeap}
use libiapp.Comm.State.{FdeComm}
use libiapp.Conn.State.{ConnState}

-- `comm` says that the pointer to the comm object is not NULL; `r_buf`, `nb` and `ev_cleanup` are addresses or NULL.
pub record CltConn : Type 0 where
  pub fd : ℤ
  pub comm : Bool
  pub ev_cleanup : Option ℕ
  pub state : ConnState
  pub total_read : ℕ
  pub total_written : ℕ
  pub write_close_thr : ℕ
  pub r_buf : Option ℕ
  pub r_size : ℕ
  pub nb : Option ℕ

-- What a connection asks of its comm object.
pub data CommAsk : Type 0 where
  nonblocking_of : ℕ → CommAsk
  connect_of : (c sin slen : ℕ) → CommAsk
  read_of : (c : ℕ) (buf : Option ℕ) (len : ℕ) → CommAsk
  write_of : (c nb nb_start_offset len : ℕ) → CommAsk
  close_of : ℕ → CommAsk

-- A thread with its memory: `conns` is what the structs at an address hold, `net` the blocks of malloc(3) with
-- the field `sm`, and `memory` the bytes of the buffers. `asks` lists what was asked of the comm objects so
-- far, oldest first, `comms` the comm objects that were made. `faults` counts the uses of a NULL pointer, behind the
-- first of which the program is not running any more. Rates and limits are ints that may be negative.
pub record CltApp : Type 0 where
  pub app_id : ℕ
  pub max_io_size : ℕ
  pub nconns : ℤ
  pub connrate : ℤ
  pub h : FdeHead
  pub ev_stats : ℕ
  pub num_clients : ℕ
  pub ev_newconn : ℕ
  pub total_read : ℕ
  pub total_written : ℕ
  pub total_opened : ℕ
  pub total_closed : ℕ
  pub conn_list : List ℕ
  pub conns : ℕ → CltConn
  pub net : NetHeap
  pub memory : ℕ → ℕ
  pub comms : List FdeComm
  pub asks : List CommAsk
  pub faults : ℕ

abbrev pub set_conn : CltApp → ℕ → CltConn → CltApp
set_conn s c x = record s { conns = store s.conns c x }

abbrev pub fault : CltApp → CltApp
fault s = record s { faults = suc s.faults }

-- A call of comm.h on the comm object of a connection.
abbrev pub use_comm : ℕ → CommAsk → CltApp → CltApp
use_comm c a s = if (s.conns c).comm then record s { asks = s.asks ++ a ∷ [] } else fault s

-- A call of fde.h with the cleanup event of a connection.
abbrev pub with_event : (FdeHead → ℕ → FdeHead) → Option ℕ → CltApp → CltApp
with_event f none s = fault s
with_event f (some ev) s = record s { h = f s.h ev }
