-- ===== src/Srv/Books.antt =====
-- Where the descriptors go that the server of src/srv/srv.c accepts.
use libiapp.Base.{
  ℕ, zero, suc, ◌+◌, ◌-◌, ◌%◌, ◌^◌, ◌<◌, ◌≡◌, refl, ap, ◌∙◌, Bool, true, false, Option, none, some,
  List, [], ◌∷◌, ◌++◌, arith, ltb, ◌==◌, if◌then◌else◌, if_both, remove, has, store, times,
  times-snoc, times-remove,
}
use libiapp.Fde.Event.{Timeval}
use libiapp.Fde.Timeout.{fde_add_timeout}
use libiapp.Comm.State.{CommStatus}
use libiapp.Conn.State.{
  ConnState, conn_state_none, conn_state_connecting, conn_state_running, conn_state_closing,
  conn_state_error, conn_state_freeing,
}
use libiapp.Srv.Server.{
  NewFd, SrvThr, Server, set_thr, thrsrv_newfd_enqueue, thrsrv_conn_update_cb, thrsrv_finish_setup,
  finish_all, next_run, thrsrv_run_deferred, accept_for, thrsrv_flowid_to_thread, thrsrv_acceptfd,
  is_accepted,
}

-- How often a descriptor stands on a list of new ones.
unfoldable pub times_new : ℕ → List NewFd → ℕ
times_new d [] = 0
times_new d (x ∷ xs) = (if x.newfd == d then 1 else 0) + times_new d xs

-- How often the threads below `n` hold a descriptor, as a connection or to make one.
unfoldable pub held_by : ℕ → (ℕ → SrvThr) → (n : ℕ) → ℕ
held_by d rp zero = 0
held_by d rp (suc n) = times d (rp n).conn_list + times_new d (rp n).newfd_list + held_by d rp n

-- How often a descriptor is held, was closed, or was freed with its connection.
abbrev pub kept : ℕ → Server → ℕ
kept d s = held_by d s.rp s.num_threads + times d s.closed + times d s.freed

times_new-snoc :
    (d : ℕ) (xs : List NewFd) (x : NewFd)
    → times_new d (xs ++ x ∷ []) ≡ times_new d xs + (if x.newfd == d then 1 else 0)
unfolding times_new
times_new-snoc d [] x = omega arith
times_new-snoc d (y ∷ xs) x = omega (arith, times_new-snoc d xs x)

-- What one thread holds.
abbrev share : ℕ → SrvThr → ℕ
share d t = times d t.conn_list + times_new d t.newfd_list

held_by-store :
    (d : ℕ) (rp : ℕ → SrvThr) (n i : ℕ) (t : SrvThr)
    → held_by d (store rp i t) n + (if ltb i n then share d (rp i) else 0)
      ≡ held_by d rp n + (if ltb i n then share d t else 0)
unfolding held_by store
held_by-store d rp zero i t = ground arith
held_by-store d rp (suc n) i t = ground (arith, held_by-store d rp n i t)

-- A thread below the number of threads is put back.
kept-set_thr :
    (d : ℕ) (s : Server) (i : ℕ) (t : SrvThr)
    → i < s.num_threads
    → kept d (set_thr s i t) + share d (s.rp i) ≡ kept d s + share d t
kept-set_thr d s i t l = ground (arith, held_by-store d s.rp s.num_threads i t)

kept-thrsrv_newfd_enqueue :
    (d : ℕ) (calloc : Bool) (s : Server) (newfd flowid i : ℕ)
    → i < s.num_threads
    → kept d (thrsrv_newfd_enqueue calloc s newfd flowid i)
      ≡ kept d s + (if newfd == d then 1 else 0)
unfolding thrsrv_newfd_enqueue times
kept-thrsrv_newfd_enqueue d calloc s newfd flowid i l =
    let t = s.rp i in
    let x : NewFd = record { newfd = newfd; flowid = flowid } in
    let u = record t { newfd_list = t.newfd_list ++ x ∷ [] } in
    let a : kept d (set_thr s i u) ≡ kept d s + (if newfd == d then 1 else 0) =
      omega (arith, kept-set_thr d s i u l, times_new-snoc d t.newfd_list x) in
    if_both (λ (v : Server). kept d v ≡ kept d s + (if newfd == d then 1 else 0)) calloc a
      (omega arith)

kept-thrsrv_conn_update_cb :
    (d : ℕ) (s : Server) (i fd : ℕ) (x : ConnState)
    → i < s.num_threads
    → has fd (s.rp i).conn_list ≡ true
    → kept d (thrsrv_conn_update_cb s i fd x) ≡ kept d s
unfolding thrsrv_conn_update_cb times
kept-thrsrv_conn_update_cb d s i fd conn_state_none l h = refl
kept-thrsrv_conn_update_cb d s i fd conn_state_connecting l h = refl
kept-thrsrv_conn_update_cb d s i fd conn_state_running l h = refl
kept-thrsrv_conn_update_cb d s i fd conn_state_closing l h = refl
kept-thrsrv_conn_update_cb d s i fd conn_state_error l h = refl
kept-thrsrv_conn_update_cb d s i fd conn_state_freeing l h =
    let t = s.rp i in
    let u = record t {
      conn_list = remove fd t.conn_list;
      total_closed = (t.total_closed + 1) % 2 ^ 64;
      num_clients = (t.num_clients + (2 ^ 64 - 1)) % 2 ^ 64;
    } in
    omega (arith, kept-set_thr d s i u l, times-remove d fd t.conn_list h)

module _ (conn_new : ℕ → Bool) (d : ℕ) where
  kept-thrsrv_finish_setup :
      (s : Server) (i fd : ℕ)
      → i < s.num_threads
      → kept d (thrsrv_finish_setup conn_new s i fd) ≡ kept d s + (if fd == d then 1 else 0)
  unfolding thrsrv_finish_setup times
  kept-thrsrv_finish_setup s i fd l =
      let t = s.rp i in
      let u = record t {
        conn_list = t.conn_list ++ fd ∷ [];
        num_clients = (t.num_clients + 1) % 2 ^ 64;
      } in
      let a : kept d (set_thr s i u) ≡ kept d s + (if fd == d then 1 else 0) =
        omega (arith, kept-set_thr d s i u l, times-snoc d t.conn_list fd) in
      if_both (λ (v : Server). kept d v ≡ kept d s + (if fd == d then 1 else 0)) (conn_new fd) a
        (omega arith)

  num_threads-thrsrv_finish_setup :
      (s : Server) (i fd : ℕ) → (thrsrv_finish_setup conn_new s i fd).num_threads ≡ s.num_threads
  unfolding thrsrv_finish_setup
  num_threads-thrsrv_finish_setup s i fd = ground arith

  num_threads-finish_all :
      (s : Server) (i : ℕ) (ths : List NewFd)
      → (finish_all conn_new s i ths).num_threads ≡ s.num_threads
  unfolding finish_all
  num_threads-finish_all s i [] = refl
  num_threads-finish_all s i (x ∷ ths) =
      num_threads-finish_all (thrsrv_finish_setup conn_new s i x.newfd) i ths
      ∙ num_threads-thrsrv_finish_setup s i x.newfd

  kept-finish_all :
      (s : Server) (i : ℕ) (ths : List NewFd)
      → i < s.num_threads
      → kept d (finish_all conn_new s i ths) ≡ kept d s + times_new d ths
  unfolding finish_all times_new
  kept-finish_all s i [] l = omega arith
  kept-finish_all s i (x ∷ ths) l =
      let u = thrsrv_finish_setup conn_new s i x.newfd in
      kept-finish_all u i ths (ground (arith, num_threads-thrsrv_finish_setup s i x.newfd))
      ∙ ap (λ k. k + times_new d ths) (kept-thrsrv_finish_setup s i x.newfd l)
      ∙ omega arith

  kept-thrsrv_run_deferred :
      (now : Timeval) (s : Server) (i : ℕ)
      → i < s.num_threads
      → kept d (thrsrv_run_deferred conn_new now s i) ≡ kept d s
  unfolding thrsrv_run_deferred times_new
  kept-thrsrv_run_deferred now s i l =
      let t = s.rp i in
      let c = record t { newfd_list = [] } in
      let u = finish_all conn_new (set_thr s i c) i t.newfd_list in
      let n = num_threads-finish_all (set_thr s i c) i t.newfd_list in
      let a = kept-set_thr d s i c l in
      let b = kept-finish_all (set_thr s i c) i t.newfd_list l in
      let w = u.rp i in
      let z =
        kept-set_thr d u i (record w { h = fde_add_timeout w.h w.ev_deferred (next_run now) })
          (ground (arith, n)) in
      omega (arith, z, a, b)

  kept-accept_for :
      (calloc : Bool) (s : Server) (i newfd flowid : ℕ) (id : Option ℕ)
      → i < s.num_threads
      → kept d (accept_for calloc conn_new s i newfd flowid id)
        ≡ kept d s + (if newfd == d then 1 else 0)
  unfolding accept_for
  kept-accept_for calloc s i newfd flowid none l = kept-thrsrv_finish_setup s i newfd l
  kept-accept_for calloc s i newfd flowid (some id) l =
      let k : id % s.num_threads < s.num_threads = omega arith in
      if_both (λ (v : Server). kept d v ≡ kept d s + (if newfd == d then 1 else 0)) _
        (kept-thrsrv_newfd_enqueue d calloc s newfd flowid (id % s.num_threads) k)
        (kept-thrsrv_finish_setup s i newfd l)

  kept-thrsrv_acceptfd :
      (calloc : Bool) (s : Server) (i : ℕ) (st : CommStatus) (newfd flowid : ℕ)
      → i < s.num_threads
      → kept d (thrsrv_acceptfd calloc conn_new s i st newfd flowid)
        ≡ kept d s + (if is_accepted st then (if newfd == d then 1 else 0) else 0)
  unfolding thrsrv_acceptfd
  kept-thrsrv_acceptfd calloc s i st newfd flowid l = go (is_accepted st)
    where
      go :
          (b : Bool)
          → kept d (
              if b
              then accept_for calloc conn_new s i newfd flowid (thrsrv_flowid_to_thread flowid)
              else s)
            ≡ kept d s + (if b then (if newfd == d then 1 else 0) else 0)
      go true = kept-accept_for calloc s i newfd flowid _ l
      go false = omega arith

-- The descriptors that were accepted.
abbrev pub log_accept : CommStatus → ℕ → List ℕ → List ℕ
log_accept st newfd log = if is_accepted st then newfd ∷ log else log

-- Any steps of the threads in any order, with the descriptors that were accepted. A connection is
-- reported to its owner by the thread that has it.
pub data SrvReach (s : Server) : Server → List ℕ → Type 0 where
  here : SrvReach s s []
  accepts :
      {t : Server} {log : List ℕ} (calloc : Bool) (conn_new : ℕ → Bool) (i : ℕ) (st : CommStatus)
      (newfd flowid : ℕ)
      → SrvReach s t log
      → i < t.num_threads
      → SrvReach s (thrsrv_acceptfd calloc conn_new t i st newfd flowid) (log_accept st newfd log)
  defers :
      {t : Server} {log : List ℕ} (conn_new : ℕ → Bool) (now : Timeval) (i : ℕ)
      → SrvReach s t log
      → i < t.num_threads
      → SrvReach s (thrsrv_run_deferred conn_new now t i) log
  updates :
      {t : Server} {log : List ℕ} (i fd : ℕ) (x : ConnState)
      → SrvReach s t log
      → i < t.num_threads
      → has fd (t.rp i).conn_list ≡ true
      → SrvReach s (thrsrv_conn_update_cb t i fd x) log

times-log_accept :
    (d : ℕ) (st : CommStatus) (newfd : ℕ) (log : List ℕ)
    → times d (log_accept st newfd log)
      ≡ times d log + (if is_accepted st then (if newfd == d then 1 else 0) else 0)
unfolding times
times-log_accept d st newfd log = ground arith

-- No descriptor is lost and none is used twice: after any steps of the threads in any order, a descriptor is held
-- by a thread, as a connection or to become one, or was closed by the server, or was freed with its
-- connection, as often as it was accepted, beyond how often it was so at the start.
pub SrvReach-kept :
    {s u : Server} {log : List ℕ} (d : ℕ) → SrvReach s u log → kept d u ≡ kept d s + times d log
unfolding times
SrvReach-kept d here = omega arith
SrvReach-kept d (accepts {t} {log} calloc conn_new i st newfd flowid r l) = omega (
  arith,
  kept-thrsrv_acceptfd conn_new d calloc t i st newfd flowid l,
  SrvReach-kept d r,
  times-log_accept d st newfd log,
)
SrvReach-kept d (defers {t} conn_new now i r l) =
    kept-thrsrv_run_deferred conn_new d now t i l ∙ SrvReach-kept d r
SrvReach-kept d (updates {t} i fd x r l h) =
    kept-thrsrv_conn_update_cb d t i fd x l h ∙ SrvReach-kept d r
