-- ===== src/Clt/Books.antt =====
-- Runs of one thread of src/clt/clt.c.
use libiapp.Base.{ℕ, ◌≤◌, ◌≡◌, sym, ◌∙◌, inl, inr, true, ℤ, has}
use mathlib.Core.Path.{subst}
use libiapp.Fde.Event.{Timeval}
use libiapp.Shm.State.{returned}
use libiapp.Shm.Reach.{returned_injective, returned-aborts}
use libiapp.Comm.State.{CommStatus}
use libiapp.Clt.State.{CltApp}
use libiapp.Clt.Handlers.{
  clt_write_cb, clt_read_cb, clt_close_cb, conn_connect_cb, conn_ev_cleanup_cb,
}
use libiapp.Clt.App.{RoundCalls, thrclt_ev_newconn_cb, thrclt_stat_print}
use libiapp.Clt.Shape.{
  shape-clt_write_cb, shape-clt_read_cb, shape-clt_close_cb, shape-conn_connect_cb,
}
use libiapp.Clt.Kept.{IsCounted, IsCounted-shape, conn_ev_cleanup_cb-IsCounted}
use libiapp.Clt.Round.{most_opened, thrclt_ev_newconn_cb-Rounded}

-- Any callbacks of a thread in any order, each as far as it returns. The cleanup event is that of a connection on the list.
pub data CltReach (s : CltApp) : CltApp → Type 0 where
  here : CltReach s s
  rounds :
      {t u : CltApp} (fuel : ℕ) (sys : RoundCalls) (now : Timeval)
      → CltReach s t
      → most_opened t.connrate ≤ fuel
      → thrclt_ev_newconn_cb fuel sys now t ≡ returned u
      → CltReach s u
  connects :
      {t : CltApp} (st : CommStatus) (c : ℕ) → CltReach s t → CltReach s (conn_connect_cb st c t)
  reads :
      {t : CltApp} (st : CommStatus) (retval : ℤ) (c : ℕ)
      → CltReach s t
      → CltReach s (clt_read_cb st retval c t)
  writes :
      {t : CltApp} (st : CommStatus) (nwritten c : ℕ)
      → CltReach s t
      → CltReach s (clt_write_cb st nwritten c t)
  closes : {t : CltApp} (c : ℕ) → CltReach s t → CltReach s (clt_close_cb c t)
  prints : {t : CltApp} (now : Timeval) → CltReach s t → CltReach s (thrclt_stat_print now t)
  cleans :
      {t u : CltApp} (c : ℕ)
      → CltReach s t
      → has c t.conn_list ≡ true
      → conn_ev_cleanup_cb c t ≡ returned u
      → CltReach s u

-- From a thread whose num_clients counts its list of different connections, and after any of its callbacks in
-- any order, as long as they return: num_clients counts the list, and of the blocks that clt.c and netbuf.c
-- take, those that are allocated are the struct, the read buffer and the two blocks of the netbuf of each
-- connection on the list, and those of others from before.
pub CltReach-IsCounted :
    {s t : CltApp} (base : ℕ → ℕ) → CltReach s t → IsCounted base s → IsCounted base t
unfolding thrclt_stat_print
CltReach-IsCounted base here k = k
CltReach-IsCounted base (rounds {t} fuel sys now r q e) k =
    elim (thrclt_ev_newconn_cb-Rounded base sys fuel now t q (CltReach-IsCounted base r k)) [
      | inl (u, f, w) ↦ subst (IsCounted base) (returned_injective (sym f ∙ e)) w.0
      | inr (f, x) ↦ absurd (returned-aborts (sym e ∙ f))
    ]
CltReach-IsCounted base (connects {t} st c r) k =
    IsCounted-shape base t (conn_connect_cb st c t) (λ d. shape-conn_connect_cb d c st t)
      (CltReach-IsCounted base r k)
CltReach-IsCounted base (reads {t} st retval c r) k =
    IsCounted-shape base t (clt_read_cb st retval c t) (λ d. shape-clt_read_cb d c st retval t)
      (CltReach-IsCounted base r k)
CltReach-IsCounted base (writes {t} st nwritten c r) k =
    IsCounted-shape base t (clt_write_cb st nwritten c t)
      (λ d. shape-clt_write_cb d c st nwritten t) (CltReach-IsCounted base r k)
CltReach-IsCounted base (closes {t} c r) k =
    IsCounted-shape base t (clt_close_cb c t) (λ d. shape-clt_close_cb d c t)
      (CltReach-IsCounted base r k)
CltReach-IsCounted base (prints {t} now r) k = CltReach-IsCounted base r k
CltReach-IsCounted base (cleans {t} c r p e) k =
    let (u, f, w) = conn_ev_cleanup_cb-IsCounted base c t (CltReach-IsCounted base r k) p in
    subst (IsCounted base) (returned_injective (sym f ∙ e)) w
