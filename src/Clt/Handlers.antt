-- ===== src/Clt/Handlers.antt =====
-- The callbacks of src/clt/clt.c for one connection, and its owner thrclt_conn_update_cb.
use libiapp.Base.{
  ℕ, ◌+◌, ◌-◌, ◌%◌, ◌^◌, false, not, ◌&&◌, Option, none, some, ℤ, pos, negsuc, ltb, ◌==◌,
  if◌then◌else◌, remove, store,
}
use libiapp.Fde.Register.{fde_add, fde_delete}
use libiapp.Shm.State.{Ran, returned, blocks, aborts}
use libiapp.Netbuf.State.{NetHeap, free_block}
use libiapp.Netbuf.Alloc.{iapp_netbuf_free, iapp_netbuf_size}
use libiapp.Comm.State.{CommStatus}
use libiapp.Conn.State.{
  ConnState, conn_state_running, conn_state_error, conn_state_closing, conn_state_freeing,
  is_closing_state, is_running_state,
}
use libiapp.Conn.Handlers.{is_completed_status}
use libiapp.Clt.State.{CltApp, read_of, write_of, close_of, set_conn, fault, use_comm, with_event}

abbrev pub set_clt_state : ConnState → ℕ → CltApp → CltApp
set_clt_state x c s = set_conn s c (record (s.conns c) { state = x })

-- conn_close.
unfoldable pub clt_close : ℕ → CltApp → CltApp
unfolding store
clt_close c s =
    let t = use_comm c (close_of c) (set_clt_state conn_state_closing c s) in
    if is_closing_state (s.conns c).state
    then s
    else record (set_conn t c (record (t.conns c) { comm = false })) {
      total_closed = (t.total_closed + 1) % 2 ^ 64;
    }

-- thrclt_conn_update_cb.
unfoldable pub thrclt_conn_update_cb : ConnState → ℕ → CltApp → CltApp
unfolding clt_close
thrclt_conn_update_cb conn_state_error c s = clt_close c s
thrclt_conn_update_cb conn_state_freeing c s =
    if s.num_clients == 0 then s else record s { num_clients = s.num_clients - 1 }
thrclt_conn_update_cb _ c s = s

-- A connection that fails tells its owner.
abbrev pub fail_conn : ℕ → CltApp → CltApp
fail_conn c s = thrclt_conn_update_cb conn_state_error c (set_clt_state conn_state_error c s)

-- conn_write_cb, behind the update of the statistics.
unfoldable pub clt_write_more : (nwritten c : ℕ) → Option ℕ → CltApp → CltApp
unfolding clt_close thrclt_conn_update_cb iapp_netbuf_size store
clt_write_more nwritten c nb s =
    let x = s.conns c in
    if not (x.write_close_thr == 0) && ltb x.write_close_thr x.total_written
    then clt_close c s
    else elim nb [
      | none ↦ fault s
      | some n ↦
          (let size = iapp_netbuf_size s.net n in
            if not (nwritten == size) then fail_conn c s else use_comm c (write_of c n 0 size) s)
    ]

-- conn_write_cb.
unfoldable pub clt_write_cb : CommStatus → (nwritten c : ℕ) → CltApp → CltApp
unfolding clt_write_more thrclt_conn_update_cb store
clt_write_cb st nwritten c s =
    let x = s.conns c in
    let t =
      record (set_conn s c (record x { total_written = (x.total_written + nwritten) % 2 ^ 64 })) {
        total_written = (s.total_written + nwritten) % 2 ^ 64;
      } in
    if not (is_running_state x.state)
    then s
    else if not (is_completed_status st)
    then fail_conn c s
    else clt_write_more nwritten c x.nb t

-- The bytes of a read that conn_read_cb counts.
unfoldable pub count_read : ℤ → ℕ → CltApp → CltApp
unfolding store
count_read (pos n) c s =
    let x = s.conns c in
    record (set_conn s c (record x { total_read = (x.total_read + n) % 2 ^ 64 })) {
      total_read = (s.total_read + n) % 2 ^ 64;
    }
count_read (negsuc n) c s = s

-- conn_read_cb. Adding 0 changes nothing that is below 2 ^ 64.
unfoldable pub clt_read_cb : CommStatus → (retval : ℤ) → (c : ℕ) → CltApp → CltApp
unfolding count_read clt_close
clt_read_cb st retval c s =
    let t = count_read retval c s in
    if not (is_completed_status st)
    then clt_close c s
    else use_comm c (read_of c (t.conns c).r_buf (t.conns c).r_size) t

-- conn_close_cb.
unfoldable pub clt_close_cb : ℕ → CltApp → CltApp
clt_close_cb c s = with_event fde_add (s.conns c).ev_cleanup s

-- conn_connect_cb.
unfoldable pub conn_connect_cb : CommStatus → (c : ℕ) → CltApp → CltApp
unfolding thrclt_conn_update_cb store
conn_connect_cb st c s =
    let t = thrclt_conn_update_cb conn_state_running c (set_clt_state conn_state_running c s) in
    let u = record t { total_opened = (t.total_opened + 1) % 2 ^ 64 } in
    if not (is_completed_status st)
    then fail_conn c s
    else if not (is_running_state (t.conns c).state)
    then t
    else use_comm c (read_of c (u.conns c).r_buf (u.conns c).r_size) u

-- free(3), of NULL too.
unfoldable pub free_opt : Option ℕ → NetHeap → NetHeap
free_opt none h = h
free_opt (some b) h = free_block h b

-- iapp_netbuf_free where the pointer is not NULL.
unfoldable pub free_netbuf : Option ℕ → NetHeap → Ran NetHeap
unfolding iapp_netbuf_free
free_netbuf none h = returned h
free_netbuf (some n) h = iapp_netbuf_free h n

-- The end of conn_ev_cleanup_cb: the connection leaves the list, and the struct is freed.
unfoldable pub drop_conn : ℕ → CltApp → Ran NetHeap → Ran CltApp
unfolding remove
drop_conn c s (returned n) =
    returned (record s { conn_list = remove c s.conn_list; net = free_block n c })
drop_conn c s blocks = blocks
drop_conn c s aborts = aborts

-- conn_ev_cleanup_cb. The event itself is not freed.
unfoldable pub conn_ev_cleanup_cb : ℕ → CltApp → Ran CltApp
unfolding thrclt_conn_update_cb free_opt free_netbuf drop_conn
conn_ev_cleanup_cb c s =
    let t = with_event fde_delete (s.conns c).ev_cleanup s in
    let u = thrclt_conn_update_cb conn_state_freeing c t in
    let x = u.conns c in drop_conn c u (free_netbuf x.nb (free_opt x.r_buf u.net))
