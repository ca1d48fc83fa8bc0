-- ===== src/Conn/New.antt =====
-- conn_new of lib/libiapp/conn.c.
use libiapp.Base.{
  ℕ, zero, suc, ◌+◌, ◌%◌, Bool, true, false, not, Option, none, some, [], ◌∷◌, ℤ, minus_one,
  if◌then◌else◌, store,
}
use libiapp.Fde.Event.{FdeHead, callback}
use libiapp.Fde.Register.{fde_create}
use libiapp.Shm.State.{Ran, returned, blocks, aborts}
use libiapp.Netbuf.State.{NetHeap, take_block, free_block}
use libiapp.Netbuf.Alloc.{iapp_netbuf_alloc, iapp_netbuf_buf, iapp_netbuf_size}
use libiapp.Comm.State.{FdeComm}
use libiapp.Comm.Create.{comm_create}
use libiapp.Conn.State.{conn_state_running, Cfg, asks_write, ConnRun}

-- What the allocations of conn_new answer, in their order, and the handlers of the events.
pub record NewCalls : Type 0 where
  pub calloc : Bool
  pub malloc_buf : Bool
  pub struct : Bool
  pub malloc : Bool
  pub node : Bool
  pub calloc_comm : ℕ → Bool
  pub calloc_ev : Bool
  pub note_eof : ℕ
  pub handlers : ℕ → ℕ
  pub close_cb : ℕ
  pub cleanup_cb : ℕ

-- `memory` is what the bytes at an address hold.
pub record Place : Type 0 where
  pub fh : FdeHead
  pub net : NetHeap
  pub memory : ℕ → ℕ

-- The loop that writes digits, from the i-th byte on.
unfoldable pub fill : (buf i n : ℕ) → (ℕ → ℕ) → ℕ → ℕ
unfolding store
fill buf i zero m = m
fill buf i (suc n) m = fill buf (suc i) n (store m (buf + i) (i % 10 + 48))

-- The address of an event, or NULL.
abbrev pub or_null : Option ℕ → ℕ
or_null none = 0
or_null (some i) = i

abbrev pub is_made {ℓ} : {A : Type ℓ} → Option A → Bool
is_made none = false
is_made (some x) = true

-- The rest of conn_new, behind the allocation of the netbuf at `nb`. Neither comm_create nor fde_create is
-- checked. setsockopt(2) changes nothing here.
unfoldable pub start :
    NewCalls
    → Place
    → Cfg
    → ℤ
    → (cb : Bool) → (self r_buf nb : ℕ) → Place × ConnRun × Option FdeComm
unfolding fill iapp_netbuf_size iapp_netbuf_buf
start sys p cfg fd cb self r_buf nb =
    let size = iapp_netbuf_size p.net nb in
    let made = comm_create sys.calloc_comm sys.note_eof sys.handlers p.fh fd (some sys.close_cb) in
    let ev = fde_create sys.calloc_ev sys.note_eof made.0 minus_one callback false sys.cleanup_cb in
    (
      record { fh = ev.0; net = p.net; memory = fill (iapp_netbuf_buf p.net nb) 0 size p.memory },
      record {
        c = record {
          self = self;
          fd = fd;
          comm = is_made made.1;
          ev_cleanup = or_null ev.1;
          state = conn_state_running;
          r_buf = r_buf;
          r_size = cfg.io_size;
          nb = nb;
          cb = cb;
          stats_cb = false;
          total_written = 0;
          write_close_thr = 0;
        };
        net = p.net;
        asks = asks_write (is_made made.1) nb 0 size ∷ [];
        told = [];
        stats = [];
      },
      made.1,
    )

-- What conn_new leaves, and the connection and its comm object where there is one.
abbrev pub NewResult : Type 0
NewResult = Place × Option (ConnRun × Option FdeComm)

-- conn_new, at the result of iapp_netbuf_alloc. Where comm_create failed, the comm_write on NULL at its end
-- does not return: `aborts`.
unfoldable pub with_netbuf :
    NewCalls
    → Place
    → Cfg
    → ℤ
    → (cb : Bool) → (self r_buf : ℕ) → Ran (NetHeap × Option ℕ)
    → Ran NewResult
unfolding start
with_netbuf sys p cfg fd cb self r_buf (returned (h, some nb)) =
    let (q, s, fc) = start sys (record p { net = h }) cfg fd cb self r_buf nb in
    if is_made fc then returned (q, some (s, fc)) else aborts
with_netbuf sys p cfg fd cb self r_buf (returned (h, none)) =
    returned (record p { net = free_block (free_block h r_buf) self }, none)
with_netbuf sys p cfg fd cb self r_buf blocks = blocks
with_netbuf sys p cfg fd cb self r_buf aborts = aborts

-- conn_new.
unfoldable pub conn_new : NewCalls → Place → Cfg → ℤ → (cb : Bool) → Ran NewResult
unfolding with_netbuf
conn_new sys p cfg fd cb =
    let self = p.net.next_block in
    let r_buf = suc self in
    let h = take_block p.net in
    if not sys.calloc
    then returned (p, none)
    else if not sys.malloc_buf
    then returned (record p { net = free_block h self }, none)
    else with_netbuf sys p cfg fd cb self r_buf
        (iapp_netbuf_alloc sys.struct sys.malloc sys.node (take_block h) cfg.atype cfg.io_size)
