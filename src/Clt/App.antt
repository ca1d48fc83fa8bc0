-- ===== src/Clt/App.antt =====
-- The thread of src/clt/clt.c: opening connections at a rate, and the statistics. The ints of the source do
-- not overflow here: num_clients stays below nconns, and the count of a round below connrate + 2.
use libiapp.Base.{
  ℕ, zero, suc, ◌+◌, ◌-◌, Bool, true, false, Option, none, some, ℤ, pos, negsuc, minus_one, ltb,
  if◌then◌else◌, store,
}
use libiapp.Fde.Event.{Timeval, timer}
use libiapp.Fde.Register.{fde_create}
use libiapp.Fde.Timeout.{fde_add_timeout}
use libiapp.Shm.State.{Ran, returned, blocks, aborts}
use libiapp.Conn.State.{conn_state_connecting}
use libiapp.Clt.State.{CltApp, connect_of, use_comm}
use libiapp.Clt.Handlers.{set_clt_state}
use libiapp.Clt.New.{OpenCalls, clt_conn_new}

-- The first entry of what getaddrinfo(3) finds.
pub record AddrInfo : Type 0 where
  pub ai_family : ℕ
  pub ai_addr : ℕ
  pub ai_addrlen : ℕ

-- thrclt_open_new_conn, behind conn_new. The Boolean says that 0 is returned, and not -1.
unfoldable pub start_connecting : AddrInfo → Ran (CltApp × Option ℕ) → Ran (CltApp × Bool)
unfolding store
start_connecting ai (returned (s, none)) = returned (s, false)
start_connecting ai (returned (s, some c)) =
    let t =
      use_comm c (connect_of c ai.ai_addr ai.ai_addrlen)
        (set_clt_state conn_state_connecting c s) in
    returned (record t { num_clients = suc t.num_clients }, true)
start_connecting ai blocks = blocks
start_connecting ai aborts = aborts

-- thrclt_open_new_conn. The look-up answers `none` where it fails or finds nothing.
unfoldable pub thrclt_open_new_conn : OpenCalls → Option AddrInfo → CltApp → Ran (CltApp × Bool)
unfolding start_connecting clt_conn_new
thrclt_open_new_conn sys none s = returned (s, false)
thrclt_open_new_conn sys (some ai) s = start_connecting ai (clt_conn_new sys ai.ai_family s)

abbrev pub is_below : ℕ → ℤ → Bool
is_below n (pos m) = ltb n m
is_below n (negsuc m) = false

abbrev pub is_above : ℕ → ℤ → Bool
is_above n (pos m) = ltb m n
is_above n (negsuc m) = true

-- What is answered to the i-th opening of a round.
pub record RoundCalls : Type 0 where
  pub opens : ℕ → OpenCalls
  pub finds : ℕ → Option AddrInfo

-- One turn of the loop of thrclt_ev_newconn_cb, behind thrclt_open_new_conn; `go` is the rest of the loop.
unfoldable pub after_open : (i : ℕ) → (CltApp → Ran CltApp) → Ran (CltApp × Bool) → Ran CltApp
after_open i go (returned (s, false)) = returned s
after_open i go (returned (s, true)) = if is_above (suc i) s.connrate then returned s else go s
after_open i go blocks = blocks
after_open i go aborts = aborts

-- The loop of thrclt_ev_newconn_cb with `i` openings done. Without fuel it goes on for ever.
unfoldable pub open_more : (fuel : ℕ) → RoundCalls → (i : ℕ) → CltApp → Ran CltApp
unfolding after_open
open_more zero sys i s = blocks
open_more (suc fuel) sys i s =
    if is_below s.num_clients s.nconns
    then after_open i (open_more fuel sys (suc i))
        (thrclt_open_new_conn (sys.opens i) (sys.finds i) s)
    else returned s

-- The time of the next round: 100 ms from `now`.
unfoldable pub next_newconn : Timeval → Timeval
next_newconn now =
    let usec = now.tv_usec + 100000 in
    if ltb 1000000 usec
    then record { tv_sec = now.tv_sec + 1; tv_usec = usec - 1000000 }
    else record { tv_sec = now.tv_sec; tv_usec = usec }

-- The end of thrclt_ev_newconn_cb.
unfoldable pub plan_round : Timeval → Ran CltApp → Ran CltApp
unfolding next_newconn
plan_round now (returned s) =
    returned (record s { h = fde_add_timeout s.h s.ev_newconn (next_newconn now) })
plan_round now blocks = blocks
plan_round now aborts = aborts

-- thrclt_ev_newconn_cb.
unfoldable pub thrclt_ev_newconn_cb : (fuel : ℕ) → RoundCalls → Timeval → CltApp → Ran CltApp
unfolding plan_round open_more
thrclt_ev_newconn_cb fuel sys now s = plan_round now (open_more fuel sys 0 s)

-- thrclt_stat_print, with the time of the next print.
unfoldable pub thrclt_stat_print : Timeval → CltApp → CltApp
thrclt_stat_print now s = record s {
  total_read = 0;
  total_written = 0;
  total_opened = 0;
  total_closed = 0;
  h = fde_add_timeout s.h s.ev_stats (record now { tv_sec = now.tv_sec + 1 });
}

-- The address of an event that must be there.
abbrev pub timer_of : Option ℕ → (ℕ → CltApp) → CltApp → CltApp
timer_of none go s = record s { faults = suc s.faults }
timer_of (some ev) go s = go ev

-- thrclt_new up to its endless loop: it makes and starts the two timers. `now` and `later` are the two times read,
-- `cb_newconn` and `cb_stats` the callbacks.
unfoldable pub thrclt_new :
    (calloc_newconn calloc_stats : Bool) (note_eof cb_newconn cb_stats : ℕ)
    → (now later : Timeval) → CltApp
    → CltApp
thrclt_new calloc_newconn calloc_stats note_eof cb_newconn cb_stats now later s =
    let p = fde_create calloc_newconn note_eof s.h minus_one timer false cb_newconn in
    let q = fde_create calloc_stats note_eof p.0 minus_one timer false cb_stats in
    let t = record s { h = q.0 } in
    timer_of q.1
      (λ ev_stats.
        let u = record t {
          h = fde_add_timeout q.0 ev_stats (record now { tv_sec = now.tv_sec + 1 });
          ev_stats = ev_stats;
        } in
        timer_of p.1
          (λ ev_newconn. record u {
            h = fde_add_timeout u.h ev_newconn later;
            ev_newconn = ev_newconn;
          })
          u)
      t
