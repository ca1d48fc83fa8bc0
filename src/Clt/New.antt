-- ===== src/Clt/New.antt =====
-- conn_new of src/clt/clt.c.
use libiapp.Base.{
  ℕ, suc, false, not, Option, none, some, List, [], ◌∷◌, ◌++◌, ℤ, minus_one, if◌then◌else◌, store,
}
use libiapp.Fde.Event.{callback}
use libiapp.Fde.Register.{fde_create}
use libiapp.Fde.Timeout.{lt_zero}
use libiapp.Shm.State.{Ran, returned, blocks, aborts}
use libiapp.Netbuf.State.{nb_alloc_malloc, NetHeap, take_block, free_block}
use libiapp.Netbuf.Alloc.{iapp_netbuf_alloc, iapp_netbuf_buf, iapp_netbuf_size}
use libiapp.Comm.State.{FdeComm}
use libiapp.Comm.Create.{comm_create}
use libiapp.Conn.State.{conn_state_none}
use libiapp.Conn.New.{NewCalls, fill, is_made}
use libiapp.Clt.State.{CltConn, CltApp, nonblocking_of, set_conn, use_comm}

-- What the calls answer: `new` the allocations, `socket` the descriptor for an address family.
pub record OpenCalls : Type 0 where
  pub new : NewCalls
  pub socket : ℕ → ℤ

-- What calloc(3) makes, with the two buffers and the descriptor.
abbrev pub fresh_conn : ℤ → (r_size r_buf nb : ℕ) → CltConn
fresh_conn fd r_size r_buf nb = record {
  fd = fd;
  comm = false;
  ev_cleanup = none;
  state = conn_state_none;
  total_read = 0;
  total_written = 0;
  write_close_thr = 0;
  r_buf = some r_buf;
  r_size = r_size;
  nb = some nb;
}

-- The comm objects, with one more where it was made.
abbrev pub keep_made : Option FdeComm → List FdeComm → List FdeComm
keep_made none fcs = fcs
keep_made (some fc) fcs = fcs ++ fc ∷ []

-- conn_new, with a descriptor. It goes on where comm_create or fde_create fail.
unfoldable pub with_socket : OpenCalls → (c : ℕ) → CltConn → CltApp → CltApp
unfolding store
with_socket sys c x s =
    let n = sys.new in
    let made = comm_create n.calloc_comm n.note_eof n.handlers s.h x.fd (some n.close_cb) in
    let ev = fde_create n.calloc_ev n.note_eof made.0 minus_one callback false n.cleanup_cb in
    let t = record (set_conn s c (record x { comm = is_made made.1; ev_cleanup = ev.1 })) {
      h = ev.0;
      comms = keep_made made.1 s.comms;
    } in
    let u = use_comm c (nonblocking_of c) t in record u { conn_list = u.conn_list ++ c ∷ [] }

-- conn_new, at the result of iapp_netbuf_alloc. Where socket(2) failed, the struct is freed first, and its
-- fields are read behind that: nothing is known of what follows, and the model stops.
unfoldable pub clt_with_netbuf :
    OpenCalls
    → (ai_family c r_buf : ℕ) → CltApp
    → Ran (NetHeap × Option ℕ)
    → Ran (CltApp × Option ℕ)
unfolding fill with_socket iapp_netbuf_buf iapp_netbuf_size
clt_with_netbuf sys ai_family c r_buf s (returned (n, some nb)) =
    let fd = sys.socket ai_family in
    let x = fresh_conn fd s.max_io_size r_buf nb in
    let t = record s {
      net = n;
      memory = fill (iapp_netbuf_buf n nb) 0 (iapp_netbuf_size n nb) s.memory;
    } in
    if lt_zero fd then aborts else returned (with_socket sys c x t, some c)
clt_with_netbuf sys ai_family c r_buf s (returned (n, none)) =
    returned (record s { net = free_block (free_block n r_buf) c }, none)
clt_with_netbuf sys ai_family c r_buf s blocks = blocks
clt_with_netbuf sys ai_family c r_buf s aborts = aborts

-- conn_new.
unfoldable pub clt_conn_new : OpenCalls → (ai_family : ℕ) → CltApp → Ran (CltApp × Option ℕ)
unfolding clt_with_netbuf
clt_conn_new sys ai_family s =
    let n = sys.new in
    let c = s.net.next_block in
    let h = take_block s.net in
    if not n.calloc
    then returned (s, none)
    else if not n.malloc_buf
    then returned (record s { net = free_block h c }, none)
    else clt_with_netbuf sys ai_family c (suc c) s
        (iapp_netbuf_alloc n.struct n.malloc n.node (take_block h) nb_alloc_malloc s.max_io_size)
