-- ===== src/Conn/State.antt =====
-- The data of lib/libiapp/conn.h and conn_cfg.h: a connection, what it asks of its comm object and of the
-- event loop, and what it tells its owner. The callbacks in conn.c are named by who runs them, so a
-- callback pointer is only NULL or not.
use libiapp.Base.{ℕ, Bool, true, false, List, [], ◌∷◌, ◌++◌, ℤ}
use libiapp.Netbuf.State.{NetbufAllocType, NetHeap}

pub data ConnState : Type 0 where
  conn_state_none conn_state_connecting conn_state_running conn_state_error : ConnState
  conn_state_closing conn_state_freeing : ConnState

-- The settings that conn.c reads.
pub record Cfg : Type 0 where
  pub io_size : ℕ
  pub atype : NetbufAllocType

-- `comm` says that the pointer to the comm object is not NULL; `r_buf` and `nb` are addresses, and
-- `self` is the address of the struct.
pub record Conn : Type 0 where
  pub self : ℕ
  pub fd : ℤ
  pub comm : Bool
  pub ev_cleanup : ℕ
  pub state : ConnState
  pub r_buf : ℕ
  pub r_size : ℕ
  pub nb : ℕ
  pub cb : Bool
  pub stats_cb : Bool
  pub total_written : ℕ
  pub write_close_thr : ℕ

-- A call of comm.h or fde.h. The first argument says that the object is not NULL.
pub data Ask : Type 0 where
  asks_write : Bool → (nb nb_start_offset len : ℕ) → Ask
  asks_read : Bool → (buf len : ℕ) → Ask
  asks_close : Bool → Ask
  asks_cleanup : (ev : ℕ) → Ask
  asks_free : (ev : ℕ) → Ask

-- `asks`, `told` and `stats` list what was asked and told so far, oldest first.
pub record ConnRun : Type 0 where
  pub c : Conn
  pub net : NetHeap
  pub asks : List Ask
  pub told : List ConnState
  pub stats : List (ℕ × ℤ)

-- The owner: does it call conn_close when it is told of a state, or of bytes moved?
pub record ConnOwner : Type 0 where
  pub update_closes : Conn → ConnState → Bool
  pub stats_closes : Conn → Bool

abbrev pub ask : Ask → ConnRun → ConnRun
ask a s = record s { asks = s.asks ++ a ∷ [] }

abbrev pub set_state : ConnState → ConnRun → ConnRun
set_state x s = record s { c = record (s.c) { state = x } }

abbrev pub set_comm : Bool → ConnRun → ConnRun
set_comm b s = record s { c = record (s.c) { comm = b } }

abbrev pub is_closing_state : ConnState → Bool
is_closing_state conn_state_closing = true
is_closing_state _ = false

abbrev pub is_running_state : ConnState → Bool
is_running_state conn_state_running = true
is_running_state _ = false
