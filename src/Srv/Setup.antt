-- ===== src/Srv/Setup.antt =====
-- thrsrv_new of src/srv/srv.c up to its endless loop, and lib/libiapp/iapp_cpu.c, which main of srv.c calls. The two
-- listening objects of a thread share its event loop.
use libiapp.Base.{
  ℕ, suc, ◌+◌, Bool, false, Option, none, some, List, ◌∷◌, [], ◌++◌, ℤ, pos, negsuc, minus_one,
}
use libiapp.Fde.Event.{Timeval, FdeHead, timer}
use libiapp.Fde.Register.{fde_create}
use libiapp.Fde.Timeout.{fde_add_timeout}
use libiapp.Comm.State.{FdeComm}
use libiapp.Comm.Create.{comm_create}
use libiapp.Comm.Birth.{begin}
use libiapp.Comm.Api.{comm_mark_nonclose, comm_listen}

-- What a thread sets up. `faults` counts the uses of a NULL pointer.
pub record SrvStart : Type 0 where
  pub h : FdeHead
  pub listeners : List FdeComm
  pub ev_stats : Option ℕ
  pub ev_deferred : Option ℕ
  pub faults : ℕ

-- What the allocations answer, the handlers of the events, and the callbacks.
pub record StartCalls : Type 0 where
  pub calloc_comm : ℕ → Bool
  pub calloc_stats : Bool
  pub calloc_deferred : Bool
  pub note_eof : ℕ
  pub handlers : ℕ → ℕ
  pub acceptfd : ℕ
  pub stat_print : ℕ
  pub run_deferred : ℕ

-- The part of thrsrv_new for one descriptor; -1 is none. comm_mark_nonclose dereferences the object that
-- comm_create may not have made.
unfoldable pub listen_on : StartCalls → (thr_sockfd : ℤ) → SrvStart → SrvStart
unfolding comm_create comm_mark_nonclose comm_listen
listen_on sys (negsuc n) s = s
listen_on sys (pos fd) s =
    let made = comm_create sys.calloc_comm sys.note_eof sys.handlers s.h (pos fd) none in
    elim made.1 [
      | none ↦ record s { h = made.0; faults = suc s.faults }
      | some c ↦
          (let w = (comm_listen (comm_mark_nonclose (begin made.0 c)) sys.acceptfd).0 in
            record s { h = w.fh; listeners = s.listeners ++ w.c ∷ [] })
    ]

-- fde_add_timeout of an event that may be NULL.
unfoldable pub add_timer : Option ℕ → Timeval → SrvStart → SrvStart
unfolding fde_add_timeout
add_timer none tv s = record s { faults = suc s.faults }
add_timer (some ev) tv s = record s { h = fde_add_timeout s.h ev tv }

-- thrsrv_new; `now` and `later` are the two times that it reads. comm_fd_create_listen_tcp_v4 and
-- comm_fd_create_listen_tcp_v6 answer -1 where they fail, and no other negative number.
unfoldable pub thrsrv_new :
    StartCalls → (thr_sockfd_v4 thr_sockfd_v6 : ℤ) → (now later : Timeval) → FdeHead → SrvStart
unfolding listen_on add_timer fde_create
thrsrv_new sys thr_sockfd_v4 thr_sockfd_v6 now later h =
    let s = listen_on sys thr_sockfd_v6 (
      listen_on sys thr_sockfd_v4
        (record { h = h; listeners = []; ev_stats = none; ev_deferred = none; faults = 0 })) in
    let p = fde_create sys.calloc_stats sys.note_eof s.h minus_one timer false sys.stat_print in
    let q =
      fde_create sys.calloc_deferred sys.note_eof p.0 minus_one timer false sys.run_deferred in
    let t = record s { h = q.0; ev_stats = p.1; ev_deferred = q.1 } in
    add_timer t.ev_deferred later (add_timer t.ev_stats (record now { tv_sec = now.tv_sec + 1 }) t)

-- iapp_get_ncpus: what sysctlbyname(3) finds, or -1.
unfoldable pub iapp_get_ncpus : (sysctlbyname : Option ℤ) → ℤ
iapp_get_ncpus none = minus_one
iapp_get_ncpus (some v) = v
