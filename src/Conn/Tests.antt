-- ===== src/Conn/Tests.antt =====
-- The theorems on lib/libiapp/conn.c at concrete connections.
use libiapp.Base.{ltb, ◌+◌, ◌≡◌, ◌⊎◌, refl, true, false, Option, none, some, [], ◌∷◌, pos}
use libiapp.Shm.State.{returned, aborts}
use libiapp.Shm.Alloc.{shm_alloc_init, shm_alloc_alloc}
use libiapp.Netbuf.State.{nb_alloc_posixshm}
use libiapp.Netbuf.Alloc.{iapp_netbuf_alloc}
use libiapp.Netbuf.Lifetime.{Settled}
use libiapp.Netbuf.Tests.{heap, heap-IsSane, heap-IsSmall}
use libiapp.Comm.State.{FdeComm, closing, eof, write_done}
use libiapp.Comm.Create.{comm_create}
use libiapp.Fde.Register.{fde_create}
use libiapp.Comm.Ledger.{count_calls}
use libiapp.Comm.Api.{comm_write, close_write, close_read}
use libiapp.Comm.Handlers.{comm_cb_write, comm_cb_write_cb}
use libiapp.Comm.Tests.{writing, takes_all, twice_written, empty_loop}
use libiapp.Conn.State.{conn_state_running, conn_state_error, Cfg, ConnRun, ConnOwner, set_state}
use libiapp.Conn.Handlers.{conn_close, conn_write_cb, client_ev_cleanup_cb}
use libiapp.Conn.New.{NewCalls, Place, NewResult, conn_new}
use libiapp.Conn.Fine.{IsFine}
use libiapp.Conn.Life.{here, next, writes, conn_new-IsFine}
use libiapp.Conn.Composed.{
  attach, attach-IsOwner, replay, on_call, heard_none, hears, is_closed, total-CommReach,
  comm_cb_write_cb-conn_write_cb,
}
use libiapp.Conn.Release.{
  Started, has_memory, makes_comm, conn_new-Started, client_ev_cleanup_cb-conn_new,
}

abbrev pub sys : NewCalls
sys = record {
  calloc = true;
  malloc_buf = true;
  struct = true;
  malloc = true;
  node = true;
  calloc_comm = λ n. true;
  calloc_ev = true;
  note_eof = 1;
  handlers = λ n. 10 + n;
  close_cb = 20;
  cleanup_cb = 21;
}

abbrev place : Place
place = record { fh = empty_loop; net = heap; memory = λ a. 0 }

abbrev cfg : Cfg
cfg = record { io_size = 40; atype = nb_alloc_posixshm }

-- An owner that closes the connection when it is told of an error, and one that never does.
abbrev closer : ConnOwner
closer = record { update_closes = λ c x. true; stats_closes = λ c. false }

abbrev patient : ConnOwner
patient = record { update_closes = λ c x. false; stats_closes = λ c. false }

abbrev result : NewResult
result = elim (conn_new sys place cfg (pos 5) true) [ returned r ↦ r | _ ↦ (place, none) ]

-- A connection over an object that was made by another call.
abbrev lone : ConnRun
lone = record {
  c = record {
    self = 1;
    fd = pos 5;
    comm = true;
    ev_cleanup = 9;
    state = conn_state_running;
    r_buf = 2;
    r_size = 100;
    nb = 3;
    cb = true;
    stats_cb = false;
    total_written = 0;
    write_close_thr = 0;
  };
  net = heap;
  asks = [];
  told = [];
  stats = [];
}

abbrev newest_conn : NewResult → ConnRun
newest_conn (q, some (s, fc)) = s
newest_conn (q, none) = lone

abbrev object : NewResult → Option FdeComm
object (q, some (s, fc)) = fc
object (q, none) = none

abbrev born : ConnRun
born = newest_conn result

conn_new-Started_example :
    ((x : NewResult) × (conn_new sys place cfg (pos 5) true ≡ returned x)
      × Started heap (has_memory sys place cfg) (makes_comm sys place (pos 5)) x)
    ⊎ ((conn_new sys place cfg (pos 5) true ≡ aborts)
        × (has_memory sys place cfg ≡ true)
        × (makes_comm sys place (pos 5) ≡ false))
unfolding shm_alloc_init
conn_new-Started_example = conn_new-Started sys place cfg (pos 5) true heap-IsSane refl heap-IsSmall

-- The fourth allocation of comm_create fails.
crashes : conn_new (record sys { calloc_comm = λ n. ltb n 4 }) place cfg (pos 5) true ≡ aborts
unfolding shm_alloc_init shm_alloc_alloc iapp_netbuf_alloc comm_create conn_new fde_create
crashes = refl

-- A write fails, and the owner closes the connection.
abbrev ended : ConnRun
ended = conn_write_cb closer closing 0 born

client_ev_cleanup_cb-conn_new_example :
    (u : ConnRun) × (client_ev_cleanup_cb closer ended ≡ returned u) × Settled heap u.net
unfolding shm_alloc_init shm_alloc_alloc iapp_netbuf_alloc comm_create conn_new fde_create
client_ev_cleanup_cb-conn_new_example =
    client_ev_cleanup_cb-conn_new sys place result.0 cfg (pos 5) true closer born (object result)
      ended heap-IsSane refl heap-IsSmall refl (next here (writes closing 0))

abbrev or_else : Option FdeComm → FdeComm
or_else (some x) = x
or_else none = writing.c

conn_new-IsFine_example : IsFine ended
unfolding shm_alloc_init shm_alloc_alloc iapp_netbuf_alloc comm_create conn_new fde_create
conn_new-IsFine_example =
    conn_new-IsFine sys place result.0 cfg (pos 5) true closer born (or_else (object result)) refl
      (λ c. refl) (next here (writes closing 0))

-- The object reports the end of the stream, of which the connection hears; its owner closes it.
abbrev stopped : ConnRun
stopped = conn_close (on_call closer (write_done 8 eof 100) lone)

total-CommReach_example : stopped.c.total_written ≡ 0
unfolding comm_write comm_cb_write comm_cb_write_cb count_calls attach close_write close_read
total-CommReach_example =
    total-CommReach closer (attach closer lone) (attach-IsOwner closer lone) lone stopped
      (twice_written (attach closer lone)) refl
      (is_closed (hears (write_done 8 eof 100) heard_none))

comm_cb_write_cb-conn_write_cb_example :
    (let owner = attach patient lone in
      replay patient lone
        (comm_cb_write_cb owner takes_all (comm_cb_write_cb owner takes_all writing)).calls
      ≡ record (set_state conn_state_error lone) { told = conn_state_error ∷ [] })
unfolding comm_write comm_cb_write replay
comm_cb_write_cb-conn_write_cb_example =
    comm_cb_write_cb-conn_write_cb patient lone takes_all writing 99 refl refl refl refl refl
      (λ nb i k. refl) refl refl (λ c. refl)
