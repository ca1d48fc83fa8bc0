-- ===== src/Srv/Server.antt =====
-- The accept path of src/srv/srv.c. Thread `i` is `rp[i]`. A connection is named by its descriptor; what
-- conn_new answers for a descriptor is an argument. Counters have 64 bits. The mutex on a list of new descriptors
-- is taken and given back within each function, and is left out.
use libiapp.Base.{
  ℕ, ◌+◌, ◌-◌, ◌*◌, ◌%◌, ◌^◌, Bool, true, false, not, ◌&&◌, Option, none, some, List, [], ◌∷◌, ◌++◌,
  ltb, ◌==◌, if◌then◌else◌, remove, store,
}
use libiapp.Fde.Event.{FdeHead, Timeval}
use libiapp.Fde.Timeout.{fde_add_timeout}
use libiapp.Comm.State.{CommStatus, completed}
use libiapp.Conn.State.{ConnState, conn_state_error, conn_state_freeing}

pub record NewFd : Type 0 where
  pub newfd : ℕ
  pub flowid : ℕ

pub record SrvThr : Type 0 where
  pub app_id : ℕ
  pub h : FdeHead
  pub ev_stats : ℕ
  pub ev_deferred : ℕ
  pub conn_list : List ℕ
  pub newfd_list : List NewFd
  pub total_read : ℕ
  pub total_written : ℕ
  pub total_opened : ℕ
  pub total_closed : ℕ
  pub num_clients : ℕ

-- `closed` lists the descriptors that the server closed itself, `freed` those whose connection is gone,
-- `asked` those whose connection was asked to close.
pub record Server : Type 0 where
  pub rp : ℕ → SrvThr
  pub num_threads : ℕ
  pub do_fd_affinity : Bool
  pub closed : List ℕ
  pub freed : List ℕ
  pub asked : List ℕ

abbrev pub set_thr : Server → ℕ → SrvThr → Server
set_thr s i t = record s { rp = store s.rp i t }

-- thrsrv_newfd_enqueue, and the close(2) where it fails.
unfoldable pub thrsrv_newfd_enqueue : (calloc : Bool) → Server → (newfd flowid i : ℕ) → Server
unfolding store
thrsrv_newfd_enqueue calloc s newfd flowid i =
    let t = s.rp i in
    if calloc
    then set_thr s i
        (record t { newfd_list = t.newfd_list ++ record { newfd = newfd; flowid = flowid } ∷ [] })
    else record s { closed = newfd ∷ s.closed }

-- thrsrv_conn_update_cb.
unfoldable pub thrsrv_conn_update_cb : Server → (i fd : ℕ) → ConnState → Server
unfolding store
thrsrv_conn_update_cb s i fd conn_state_error = record s { asked = fd ∷ s.asked }
thrsrv_conn_update_cb s i fd conn_state_freeing =
    let t = s.rp i in
    record (set_thr s i (record t {
      conn_list = remove fd t.conn_list;
      total_closed = (t.total_closed + 1) % 2 ^ 64;
      num_clients = (t.num_clients + (2 ^ 64 - 1)) % 2 ^ 64;
    })) { freed = fd ∷ s.freed }
thrsrv_conn_update_cb s i fd _ = s

-- thrsrv_conn_stats_update_cb.
unfoldable pub thrsrv_conn_stats_update_cb : SrvThr → (tx_bytes rx_bytes : ℕ) → SrvThr
thrsrv_conn_stats_update_cb t tx_bytes rx_bytes = record t {
  total_read = (t.total_read + rx_bytes) % 2 ^ 64;
  total_written = (t.total_written + tx_bytes) % 2 ^ 64;
}

-- thrsrv_flowid_to_thread; `none` is -1.
unfoldable pub thrsrv_flowid_to_thread : (flowid : ℕ) → Option ℕ
thrsrv_flowid_to_thread flowid = if flowid == 0 then none else some (flowid % 8)

-- thrsrv_finish_setup.
unfoldable pub thrsrv_finish_setup : (conn_new : ℕ → Bool) → Server → (i newfd : ℕ) → Server
unfolding store
thrsrv_finish_setup conn_new s i newfd =
    let t = s.rp i in
    if conn_new newfd
    then set_thr s i (record t {
      conn_list = t.conn_list ++ newfd ∷ [];
      num_clients = (t.num_clients + 1) % 2 ^ 64;
    })
    else record s { closed = newfd ∷ s.closed }

-- The loop of thrsrv_run_deferred.
unfoldable pub finish_all : (conn_new : ℕ → Bool) → Server → (i : ℕ) → List NewFd → Server
unfolding thrsrv_finish_setup
finish_all conn_new s i [] = s
finish_all conn_new s i (th ∷ rest) =
    finish_all conn_new (thrsrv_finish_setup conn_new s i th.newfd) i rest

-- The time of the next run: 100 ms from `now`.
unfoldable pub next_run : Timeval → Timeval
next_run now =
    let usec = now.tv_usec + 100 * 1000 in
    if ltb (1000 * 1000) usec
    then record { tv_sec = now.tv_sec + 1; tv_usec = usec - 1000 * 1000 }
    else record { tv_sec = now.tv_sec; tv_usec = usec }

-- thrsrv_run_deferred. A connection that is set up puts nothing on the list.
unfoldable pub thrsrv_run_deferred : (conn_new : ℕ → Bool) → Timeval → Server → (i : ℕ) → Server
unfolding finish_all next_run store
thrsrv_run_deferred conn_new now s i =
    let t = s.rp i in
    let u = finish_all conn_new (set_thr s i (record t { newfd_list = [] })) i t.newfd_list in
    let v = u.rp i in
    set_thr u i (record v { h = fde_add_timeout v.h v.ev_deferred (next_run now) })

-- thrsrv_acceptfd behind the look-up of the thread.
unfoldable pub accept_for :
    (calloc : Bool) (conn_new : ℕ → Bool) → Server → (i newfd flowid : ℕ) → Option ℕ → Server
unfolding thrsrv_newfd_enqueue thrsrv_finish_setup
accept_for calloc conn_new s i newfd flowid none = thrsrv_finish_setup conn_new s i newfd
accept_for calloc conn_new s i newfd flowid (some id) =
    if s.do_fd_affinity && not (id == (s.rp i).app_id)
    then thrsrv_newfd_enqueue calloc s newfd flowid (id % s.num_threads)
    else thrsrv_finish_setup conn_new s i newfd

abbrev pub is_accepted : CommStatus → Bool
is_accepted completed = true
is_accepted _ = false

-- thrsrv_acceptfd on thread `i`. `flowid` is what the variable holds behind getsockopt(2), which does not set
-- it where it fails.
unfoldable pub thrsrv_acceptfd :
    (calloc : Bool) (conn_new : ℕ → Bool)
    → Server
    → (i : ℕ) → CommStatus
    → (newfd flowid : ℕ) → Server
unfolding accept_for thrsrv_flowid_to_thread
thrsrv_acceptfd calloc conn_new s i st newfd flowid =
    if is_accepted st
    then accept_for calloc conn_new s i newfd flowid (thrsrv_flowid_to_thread flowid)
    else s

-- thrsrv_stat_print, with the time of the next print.
unfoldable pub thrsrv_stat_print : Timeval → SrvThr → SrvThr
thrsrv_stat_print now t = record t {
  total_read = 0;
  total_written = 0;
  total_opened = 0;
  total_closed = 0;
  h = fde_add_timeout t.h t.ev_stats (record now { tv_sec = now.tv_sec + 1 });
}
