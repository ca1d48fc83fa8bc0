-- ===== src/Clt/Orderly.antt =====
-- Runs of one thread of src/clt/clt.c whose comm objects keep their promises.
use libiapp.Base.{
  ℕ, ◌≡◌, true, false, ◌&&◌, Option, none, some, List, [], ◌∷◌, ℤ, arith, ◌==◌, if_both, has,
  remove,
}
use mathlib.Core.Path.{subst}
use libiapp.Fde.Event.{Timeval}
use libiapp.Fde.Register.{fde_delete}
use libiapp.Shm.State.{Ran, returned, blocks, aborts}
use libiapp.Netbuf.State.{NetHeap}
use libiapp.Comm.State.{CommStatus}
use libiapp.Conn.State.{conn_state_freeing, is_closing_state}
use libiapp.Conn.Handlers.{is_completed_status}
use libiapp.Clt.State.{CltApp, with_event}
use libiapp.Clt.Handlers.{
  thrclt_conn_update_cb, clt_write_cb, clt_read_cb, clt_close_cb, conn_connect_cb, drop_conn,
  conn_ev_cleanup_cb,
}
use libiapp.Clt.App.{RoundCalls, open_more, plan_round, thrclt_ev_newconn_cb, thrclt_stat_print}
use libiapp.Clt.Alive.{
  is_there, AreAlive, clt_close_cb-AreAlive, conn_connect_cb-AreAlive, clt_read_cb-AreAlive,
  clt_write_cb-AreAlive,
}
use libiapp.Clt.Unharmed.{Makes, RanAlive, open_more-RanAlive}

-- The callbacks of a thread, for connections on its list. A connection that closes is not told that it is connected or
-- failed to be, and no read of it completes; and what a round makes is made.
pub data OrderlyReach (s : CltApp) : CltApp → Type 0 where
  here : OrderlyReach s s
  rounds :
      {t u : CltApp} (fuel : ℕ) (sys : RoundCalls) (now : Timeval)
      → OrderlyReach s t
      → ((j : ℕ) → Makes (sys.opens j))
      → thrclt_ev_newconn_cb fuel sys now t ≡ returned u
      → OrderlyReach s u
  connects :
      {t : CltApp} (st : CommStatus) (c : ℕ)
      → OrderlyReach s t
      → has c t.conn_list ≡ true
      → is_closing_state (t.conns c).state ≡ false
      → OrderlyReach s (conn_connect_cb st c t)
  reads :
      {t : CltApp} (st : CommStatus) (retval : ℤ) (c : ℕ)
      → OrderlyReach s t
      → has c t.conn_list ≡ true
      → (is_completed_status st && is_closing_state (t.conns c).state) ≡ false
      → OrderlyReach s (clt_read_cb st retval c t)
  writes :
      {t : CltApp} (st : CommStatus) (nwritten c : ℕ)
      → OrderlyReach s t
      → has c t.conn_list ≡ true
      → OrderlyReach s (clt_write_cb st nwritten c t)
  closes :
      {t : CltApp} (c : ℕ)
      → OrderlyReach s t
      → has c t.conn_list ≡ true
      → OrderlyReach s (clt_close_cb c t)
  prints :
      {t : CltApp} (now : Timeval) → OrderlyReach s t → OrderlyReach s (thrclt_stat_print now t)
  cleans :
      {t u : CltApp} (c : ℕ)
      → OrderlyReach s t
      → has c t.conn_list ≡ true
      → conn_ev_cleanup_cb c t ≡ returned u
      → OrderlyReach s u

has-remove_any : (d c : ℕ) (cs : List ℕ) → has d (remove c cs) ≡ true → has d cs ≡ true
unfolding has remove
has-remove_any d c [] h = h
has-remove_any d c (x ∷ cs) h = ground (arith, has-remove_any d c cs, h)

plan_round-RanAlive : (now : Timeval) (r : Ran CltApp) → RanAlive r → RanAlive (plan_round now r)
unfolding plan_round
plan_round-RanAlive now (returned t) v = record { alive = v.alive; unharmed = v.unharmed }
plan_round-RanAlive now blocks v = tt
plan_round-RanAlive now aborts v = tt

drop_conn-RanAlive :
    (c : ℕ) (w : CltApp) (r : Ran NetHeap) → AreAlive w → RanAlive (drop_conn c w r)
unfolding drop_conn
drop_conn-RanAlive c w (returned n) v = record {
  alive = λ d h. v.alive d (has-remove_any d c w.conn_list h);
  unharmed = v.unharmed;
}
drop_conn-RanAlive c w blocks v = tt
drop_conn-RanAlive c w aborts v = tt

freeing-AreAlive :
    (c : ℕ) (t : CltApp) → AreAlive t → AreAlive (thrclt_conn_update_cb conn_state_freeing c t)
unfolding thrclt_conn_update_cb
freeing-AreAlive c t v =
    if_both AreAlive (t.num_clients == 0) {x = t} v
      (record { alive = v.alive; unharmed = v.unharmed })

delete-AreAlive :
    (ev : Option ℕ) (t : CltApp)
    → is_there ev ≡ true
    → AreAlive t
    → AreAlive (with_event fde_delete ev t)
delete-AreAlive none t e v = cc
delete-AreAlive (some ev) t e v = record { alive = v.alive; unharmed = v.unharmed }

conn_ev_cleanup_cb-RanAlive :
    (c : ℕ) (s : CltApp) → AreAlive s → has c s.conn_list ≡ true → RanAlive (conn_ev_cleanup_cb c s)
unfolding conn_ev_cleanup_cb
conn_ev_cleanup_cb-RanAlive c s v h =
    drop_conn-RanAlive c _ _
      (freeing-AreAlive c _ (delete-AreAlive (s.conns c).ev_cleanup s (v.alive c h).1 v))

-- From a thread whose connections have their comm object until they close, and their cleanup event and netbuf, and
-- that has used no NULL; where comm_create and fde_create succeed; and after any callbacks that return, for
-- connections on the list, of which none says that a closing connection is connected or has failed to be, or that a read of it is complete: the same holds, so no NULL is used.
pub OrderlyReach-AreAlive : {s t : CltApp} → OrderlyReach s t → AreAlive s → AreAlive t
unfolding thrclt_ev_newconn_cb thrclt_stat_print
OrderlyReach-AreAlive here v = v
OrderlyReach-AreAlive (rounds {t} fuel sys now r k e) v = subst RanAlive e (
    plan_round-RanAlive now (open_more fuel sys 0 t)
      (open_more-RanAlive fuel sys 0 t k (OrderlyReach-AreAlive r v)))
OrderlyReach-AreAlive (connects {t} st c r h f) v =
    conn_connect_cb-AreAlive c t (OrderlyReach-AreAlive r v) h st f
OrderlyReach-AreAlive (reads {t} st retval c r h f) v =
    clt_read_cb-AreAlive c t (OrderlyReach-AreAlive r v) h st retval f
OrderlyReach-AreAlive (writes {t} st nwritten c r h) v =
    clt_write_cb-AreAlive c t (OrderlyReach-AreAlive r v) h st nwritten
OrderlyReach-AreAlive (closes {t} c r h) v = clt_close_cb-AreAlive c t (OrderlyReach-AreAlive r v) h
OrderlyReach-AreAlive (prints now r) v =
    let w = OrderlyReach-AreAlive r v in record { alive = w.alive; unharmed = w.unharmed }
OrderlyReach-AreAlive (cleans {t} c r h e) v =
    subst RanAlive e (conn_ev_cleanup_cb-RanAlive c t (OrderlyReach-AreAlive r v) h)
