-- ===== src/Comm/Reach.antt =====
-- What can happen to a comm object of lib/libiapp/comm.c: calls of its owner, and handlers run by
-- the event loop, in any order.
use libiapp.Base.{ℕ, ◌≡◌, ◌≤◌, Option, some, List}
use libiapp.Comm.State.{UdpFrame, Call, World, SysResult, got}
use libiapp.Comm.Api.{
  comm_mark_nonclose, comm_close, comm_read, comm_write, comm_listen, comm_connect, comm_udp_read,
  comm_udp_write_setup, comm_udp_write,
}
use libiapp.Comm.Handlers.{comm_cb_read, comm_cb_read_cb, comm_cb_write, comm_cb_write_cb}
use libiapp.Comm.Sockets.{
  AcceptError, ConnectProgress, comm_cb_accept, comm_cb_connect, comm_cb_connect_start,
  comm_cb_cleanup,
}
use libiapp.Comm.Udp.{comm_cb_udp_read, comm_cb_udp_write}

-- One call of comm.h.
pub data ApiStep (w : World) : World → Type 0 where
  marks : ApiStep w (comm_mark_nonclose w)
  closes : ApiStep w (comm_close w)
  reads : (buf len cb : ℕ) → ApiStep w (comm_read w buf len cb).0
  writes : (nb start len cb : ℕ) → ApiStep w (comm_write w nb start len cb).0
  listens : (cb : ℕ) → ApiStep w (comm_listen w cb).0
  connects : (limit sin slen cb : ℕ) → ApiStep w (comm_connect limit w sin slen cb).0
  udp_reads : (cb maxlen : ℕ) → ApiStep w (comm_udp_read w cb maxlen).0
  udp_sets_up : (cb qlen : ℕ) → ApiStep w (comm_udp_write_setup w cb qlen).0
  udp_writes : (fr : UdpFrame) → ApiStep w (comm_udp_write w fr).0

pub data Api (w : World) : World → Type 0 where
  done : Api w w
  and_then : {u v : World} → Api w u → ApiStep u v → Api w v

-- What an owner's callbacks may do with the object: any sequence of calls of comm.h.
abbrev pub IsOwner : (Call → World → World) → Type 0
IsOwner owner = (k : Call) (w : World) → Api w (owner k w)

-- write(2) writes no more than it is asked to.
abbrev pub IsWrite : (ℕ → ℕ → ℕ → SysResult) → Type 0
IsWrite write = (nb start len n : ℕ) → write nb start len ≡ got n → n ≤ len

-- One call of the owner, or one run of a handler, whatever the system calls return. Any handler may
-- start at any time, also with nothing in progress.
pub data CommStep (owner : Call → World → World) (w : World) : World → Type 0 where
  calls : {v : World} → ApiStep w v → CommStep owner w v
  read_ready : CommStep owner w (comm_cb_read w)
  read_event : (read : ℕ → ℕ → SysResult) → CommStep owner w (comm_cb_read_cb owner read w)
  write_ready : CommStep owner w (comm_cb_write w)
  write_event :
      (write : ℕ → ℕ → ℕ → SysResult)
      → IsWrite write
      → CommStep owner w (comm_cb_write_cb owner write w)
  accept_event : (fds : List ℕ) (e : AcceptError) → CommStep owner w (comm_cb_accept owner fds e w)
  connect_event : (x : ConnectProgress) → CommStep owner w (comm_cb_connect owner x w)
  connect_start : (x : ConnectProgress) → CommStep owner w (comm_cb_connect_start owner x w)
  udp_read_event :
      (enomem : ℕ) (alloc : ℕ → Option UdpFrame) (res : SysResult)
      → CommStep owner w (comm_cb_udp_read owner enomem alloc res w)
  udp_write_event :
      (sendto : ℕ → SysResult) (fuel : ℕ) {v : World}
      → comm_cb_udp_write owner sendto fuel w ≡ some v
      → CommStep owner w v
  cleans : CommStep owner w (comm_cb_cleanup owner w)

pub data CommReach (owner : Call → World → World) (w : World) : World → Type 0 where
  here : CommReach owner w w
  next : {u v : World} → CommReach owner w u → CommStep owner u v → CommReach owner w v
