-- ===== src/Comm/State.antt =====
-- The data of lib/libiapp/comm.h: one comm object, its event loop, and the calls made to its owner.
-- A callback of the owner with its argument is a number. Buffers are addresses. Lengths and offsets
-- are numbers that are not negative.
use libiapp.Base.{ℕ, Bool, true, false, not, ◌&&◌, Option, List, ℤ, if◌then◌else◌}
use libiapp.Fde.Event.{FdeHead}
use libiapp.Fde.Register.{fde_add, fde_delete}

pub data CommStatus : Type 0 where
  no_status completed closing error eof aborted : CommStatus

-- The parts of a datagram that comm.c looks at: `frame_id` tells frames apart.
pub record UdpFrame : Type 0 where
  pub frame_id : ℕ
  pub size : ℕ
  pub len : ℕ

pub record ReadState : Type 0 where
  pub is_active : Bool
  pub is_ready : Bool
  pub is_read : Bool
  pub buf : ℕ
  pub len : ℕ
  pub cb : ℕ

pub record WriteState : Type 0 where
  pub is_active : Bool
  pub is_ready : Bool
  pub is_write : Bool
  pub nb : ℕ
  pub nb_start_offset : ℕ
  pub offset : ℕ
  pub len : ℕ
  pub cb : ℕ

pub record AcceptState : Type 0 where
  pub is_active : Bool
  pub cb : ℕ

pub record ConnectState : Type 0 where
  pub is_active : Bool
  pub cb : ℕ
  pub sin : ℕ
  pub slen : ℕ

pub record UdpReadState : Type 0 where
  pub maxlen : ℕ
  pub is_active : Bool
  pub cb : ℕ

pub record UdpWriteState : Type 0 where
  pub is_active : Bool
  pub is_primed : Bool
  pub max_qlen : ℕ
  pub qlen : ℕ
  pub w_q : List UdpFrame
  pub cb : ℕ

pub record FdeComm : Type 0 where
  pub fd : ℤ
  pub do_close : Bool
  pub ev_read : ℕ
  pub ev_read_cb : ℕ
  pub ev_write : ℕ
  pub ev_write_cb : ℕ
  pub ev_accept : ℕ
  pub ev_connect : ℕ
  pub ev_connect_start : ℕ
  pub ev_cleanup : ℕ
  pub ev_udp_read : ℕ
  pub ev_udp_write : ℕ
  pub is_closing : Bool
  pub is_cleanup : Bool
  pub r : ReadState
  pub w : WriteState
  pub close_cb : Option ℕ
  pub a : AcceptState
  pub co : ConnectState
  pub udp_r : UdpReadState
  pub udp_w : UdpWriteState

-- A call of one of the owner's callbacks: its number, the status and the results.
pub data Call : Type 0 where
  read_done : ℕ → CommStatus → ℤ → Call
  write_done : ℕ → CommStatus → ℕ → Call
  accept_done : ℕ → CommStatus → ℤ → ℕ → Call
  connect_done : ℕ → CommStatus → ℕ → Call
  udp_read_done : ℕ → Option UdpFrame → CommStatus → ℕ → Call
  udp_write_done : ℕ → UdpFrame → CommStatus → ℕ → ℕ → Call
  close_done : ℕ → Call

-- `calls` lists the callbacks made so far, oldest first; `reads` and `writes` count the calls of
-- comm_read and comm_write that were accepted. `fd_open` and `freed` say what became of
-- the descriptor and of the object's memory.
pub record World : Type 0 where
  pub fh : FdeHead
  pub c : FdeComm
  pub calls : List Call
  pub reads : ℕ
  pub writes : ℕ
  pub fd_open : Bool
  pub freed : Bool

-- The result of a system call: a count or descriptor, or an error number: EAGAIN or EWOULDBLOCK,
-- EINTR, or another.
pub data SysResult : Type 0 where
  got : ℕ → SysResult
  would_block : ℕ → SysResult
  interrupted : ℕ → SysResult
  sys_error : ℕ → SysResult

-- fde_add and fde_delete on the object's event loop.
abbrev pub add_event : ℕ → World → World
add_event i w = record w { fh = fde_add w.fh i }

abbrev pub delete_event : ℕ → World → World
delete_event i w = record w { fh = fde_delete w.fh i }

abbrev pub set_r : World → ReadState → World
set_r w s = record w { c = record (w.c) { r = s } }

abbrev pub set_w : World → WriteState → World
set_w w s = record w { c = record (w.c) { w = s } }

abbrev pub set_a : World → AcceptState → World
set_a w s = record w { c = record (w.c) { a = s } }

abbrev pub set_co : World → ConnectState → World
set_co w s = record w { c = record (w.c) { co = s } }

abbrev pub set_udp_r : World → UdpReadState → World
set_udp_r w s = record w { c = record (w.c) { udp_r = s } }

abbrev pub set_udp_w : World → UdpWriteState → World
set_udp_w w s = record w { c = record (w.c) { udp_w = s } }

-- comm_is_close_ready.
unfoldable pub comm_is_close_ready : FdeComm → Bool
comm_is_close_ready c =
    if not c.is_closing
    then false
    else not c.r.is_active
      && not c.w.is_active
      && not c.a.is_active
      && not c.co.is_active
      && not c.udp_r.is_active
      && not c.udp_w.is_active

-- comm_start_cleanup.
unfoldable pub comm_start_cleanup : World → World
unfolding comm_is_close_ready
comm_start_cleanup w =
    if not w.c.is_closing
    then w
    else if w.c.is_cleanup
    then w
    else if not (comm_is_close_ready w.c)
    then w
    else add_event w.c.ev_cleanup (record w { c = record (w.c) { is_cleanup = true } })
