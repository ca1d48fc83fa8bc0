-- ===== src/Conn/Handlers.antt =====
-- lib/libiapp/conn.c: the calls of an owner and the callbacks from the comm object and the event loop.
use libiapp.Base.{
  ℕ, ◌+◌, ◌%◌, ◌^◌, Bool, true, false, not, ◌&&◌, [], ◌∷◌, ◌++◌, ℤ, pos, ltb, ◌==◌, if◌then◌else◌,
}
use libiapp.Shm.State.{Ran, returned, blocks, aborts}
use libiapp.Netbuf.State.{NetHeap, free_block}
use libiapp.Netbuf.Alloc.{iapp_netbuf_free, iapp_netbuf_size}
use libiapp.Comm.State.{CommStatus, completed}
use libiapp.Conn.State.{
  ConnState, conn_state_error, conn_state_closing, conn_state_freeing, asks_write, asks_read,
  asks_close, asks_cleanup, asks_free, ConnRun, ConnOwner, ask, set_state, set_comm,
  is_closing_state, is_running_state,
}

-- A callback to the owner, where there is one.
unfoldable pub tell : ConnState → ConnRun → ConnRun
tell x s = record s { told = if s.c.cb then s.told ++ x ∷ [] else s.told }

-- conn_close. A conn_close from the callback that it makes returns at once, since the state is set.
unfoldable pub conn_close : ConnRun → ConnRun
unfolding tell
conn_close s =
    let t = tell conn_state_closing (set_state conn_state_closing s) in
    if is_closing_state s.c.state then s else set_comm false (ask (asks_close t.c.comm) t)

-- A callback to the owner, and the conn_close that the owner may call from it.
unfoldable pub notify : ConnOwner → ConnState → ConnRun → ConnRun
unfolding tell conn_close
notify o x s = let t = tell x s in if s.c.cb && o.update_closes t.c x then conn_close t else t

-- A callback about bytes moved, and the conn_close that the owner may call from it.
unfoldable pub update_stats : ConnOwner → (tx : ℕ) (rx : ℤ) → ConnRun → ConnRun
unfolding conn_close
update_stats o tx rx s =
    let t = record s { stats = s.stats ++ (tx, rx) ∷ [] } in
    if s.c.stats_cb then (if o.stats_closes t.c then conn_close t else t) else s

abbrev pub is_completed_status : CommStatus → Bool
is_completed_status completed = true
is_completed_status _ = false

-- client_read_cb.
unfoldable pub client_read_cb : ConnOwner → CommStatus → (retval : ℤ) → ConnRun → ConnRun
unfolding notify update_stats
client_read_cb o s retval r =
    let t = update_stats o 0 retval r in
    if not (is_completed_status s)
    then notify o conn_state_error r
    else ask (asks_read t.c.comm t.c.r_buf t.c.r_size) t

-- conn_write_cb, behind the update of the statistics.
unfoldable pub write_more : ConnOwner → (nwritten : ℕ) → ConnRun → ConnRun
unfolding notify conn_close iapp_netbuf_size
write_more o nwritten s =
    let size = iapp_netbuf_size s.net s.c.nb in
    if not (s.c.write_close_thr == 0) && ltb s.c.write_close_thr s.c.total_written
    then conn_close s
    else if not (nwritten == size)
    then notify o conn_state_error (set_state conn_state_error s)
    else ask (asks_write s.c.comm s.c.nb 0 size) s

-- conn_write_cb. `total_written` has 64 bits.
unfoldable pub conn_write_cb : ConnOwner → CommStatus → (nwritten : ℕ) → ConnRun → ConnRun
unfolding write_more notify update_stats
conn_write_cb o st nwritten s =
    let t = record s {
      c = record (s.c) { total_written = (s.c.total_written + nwritten) % 2 ^ 64 };
    } in
    if not (is_running_state s.c.state)
    then s
    else if not (is_completed_status st)
    then notify o conn_state_error (set_state conn_state_error s)
    else write_more o nwritten (update_stats o nwritten (pos 0) t)

-- client_ev_close_cb.
unfoldable pub client_ev_close_cb : ConnRun → ConnRun
client_ev_close_cb s = ask (asks_cleanup s.c.ev_cleanup) (set_comm false s)

-- The end of client_ev_cleanup_cb: the struct itself is freed.
unfoldable pub free_conn : ConnRun → Ran NetHeap → Ran ConnRun
free_conn s (returned h) = returned (record s { net = free_block h s.c.self })
free_conn s blocks = blocks
free_conn s aborts = aborts

-- client_ev_cleanup_cb.
unfoldable pub client_ev_cleanup_cb : ConnOwner → ConnRun → Ran ConnRun
unfolding notify free_conn
client_ev_cleanup_cb o s =
    let t = notify o conn_state_freeing s in
    let u = ask (asks_free t.c.ev_cleanup) t in
    free_conn u (iapp_netbuf_free (free_block u.net u.c.r_buf) u.c.nb)

-- conn_set_stats_cb.
unfoldable pub conn_set_stats_cb : (cb : Bool) → ConnRun → ConnRun
conn_set_stats_cb cb s = record s { c = record (s.c) { stats_cb = cb } }
