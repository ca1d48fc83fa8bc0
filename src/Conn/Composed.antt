-- ===== src/Conn/Composed.antt =====
-- A connection of lib/libiapp/conn.c on top of a comm object of lib/libiapp/comm.c: the callbacks of the
-- object run the handlers of the connection, and what these ask for is done on the object.
use libiapp.Base.{
  ℕ, Bool, suc, ◌≡◌, refl, ap, ◌∙◌, true, false, List, [], ◌∷◌, ◌++◌, ℤ, arith, if_both,
}
use libiapp.Comm.State.{eof, Call, read_done, write_done, close_done, World, SysResult, got}
use libiapp.Comm.Api.{comm_read, comm_write, comm_close}
use libiapp.Comm.Handlers.{comm_cb_write_cb}
use libiapp.Comm.Reach.{Api, done, and_then, reads, writes, closes, IsOwner}
use libiapp.Comm.Ledger.{count_calls, count-snoc}
use libiapp.Comm.Histories.{completions-CommReach}
use libiapp.Comm.Reach.{CommReach}
use libiapp.Comm.WriteEnd.{is_completed, completions, comm_cb_write_cb-comm_cb_write_cb}
use libiapp.Conn.State.{
  ConnState, conn_state_running, conn_state_error, Conn, Ask, asks_write, asks_read, asks_close,
  asks_cleanup, asks_free, ConnRun, ConnOwner, set_state, is_running_state,
}
use libiapp.Conn.Handlers.{
  tell, conn_set_stats_cb, conn_close, notify, update_stats, client_read_cb, conn_write_cb,
  client_ev_close_cb,
}

-- The handler of the connection that a callback runs.
unfoldable pub on_call : ConnOwner → Call → ConnRun → ConnRun
unfolding client_read_cb conn_write_cb client_ev_close_cb
on_call o (read_done cb s n) r = client_read_cb o s n r
on_call o (write_done cb s n) r = conn_write_cb o s n r
on_call o (close_done cb) r = client_ev_close_cb r
on_call o _ r = r

-- The connection after some callbacks.
unfoldable pub replay : ConnOwner → ConnRun → List Call → ConnRun
unfolding on_call
replay o r [] = r
replay o r (k ∷ ks) = replay o (on_call o k r) ks

-- What the connection asks of its object. A call on NULL does not return; it has no meaning here.
unfoldable pub perform : List Ask → World → World
unfolding comm_write comm_read comm_close
perform [] w = w
perform (asks_write true nb i len ∷ rest) w = perform rest (comm_write w nb i len 1).0
perform (asks_read true buf len ∷ rest) w = perform rest (comm_read w buf len 2).0
perform (asks_close true ∷ rest) w = perform rest (comm_close w)
perform (_ ∷ rest) w = perform rest w

unfoldable pub but_last {ℓ} : {A : Type ℓ} → List A → List A
but_last [] = []
but_last (x ∷ []) = []
but_last (x ∷ y ∷ rest) = x ∷ but_last (y ∷ rest)

-- The owner of the object: the connection `r`, which has seen all callbacks of the object so far.
unfoldable pub attach : ConnOwner → ConnRun → Call → World → World
unfolding replay perform but_last
attach o r k w = perform (on_call o k (record (replay o r (but_last w.calls)) { asks = [] })).asks w

Api-trans : {u v w : World} → Api u v → Api v w → Api u w
Api-trans a done = a
Api-trans a (and_then b s) = and_then (Api-trans a b) s

perform-Api : (asks : List Ask) (w : World) → Api w (perform asks w)
unfolding perform
perform-Api [] w = done
perform-Api (asks_write true nb i len ∷ rest) w =
    Api-trans (and_then done (writes nb i len 1)) (perform-Api rest (comm_write w nb i len 1).0)
perform-Api (asks_write false nb i len ∷ rest) w = perform-Api rest w
perform-Api (asks_read true buf len ∷ rest) w =
    Api-trans (and_then done (reads buf len 2)) (perform-Api rest (comm_read w buf len 2).0)
perform-Api (asks_read false buf len ∷ rest) w = perform-Api rest w
perform-Api (asks_close true ∷ rest) w =
    Api-trans (and_then done closes) (perform-Api rest (comm_close w))
perform-Api (asks_close false ∷ rest) w = perform-Api rest w
perform-Api (asks_cleanup ev ∷ rest) w = perform-Api rest w
perform-Api (asks_free ev ∷ rest) w = perform-Api rest w

pub attach-IsOwner : (o : ConnOwner) (r : ConnRun) → IsOwner (attach o r)
unfolding attach
attach-IsOwner o r k w =
    perform-Api (on_call o k (record (replay o r (but_last w.calls)) { asks = [] })).asks w

replay-append :
    (o : ConnOwner) (r : ConnRun) (ks ms : List Call)
    → replay o r (ks ++ ms) ≡ replay o (replay o r ks) ms
unfolding replay
replay-append o r [] ms = refl
replay-append o r (k ∷ ks) ms = replay-append o (on_call o k r) ks ms

conn_close-total : (s : ConnRun) → (conn_close s).c.total_written ≡ s.c.total_written
unfolding conn_close tell
conn_close-total s = ground arith

notify-total :
    (o : ConnOwner) (x : ConnState) (s : ConnRun)
    → (notify o x s).c.total_written ≡ s.c.total_written
unfolding notify tell
notify-total o x s =
    if_both (λ (t : ConnRun). t.c.total_written ≡ s.c.total_written) _ (conn_close-total _) refl

update_stats-total :
    (o : ConnOwner) (tx : ℕ) (rx : ℤ) (s : ConnRun)
    → (update_stats o tx rx s).c.total_written ≡ s.c.total_written
unfolding update_stats
update_stats-total o tx rx s =
    ground (arith, conn_close-total (record s { stats = s.stats ++ (tx, rx) ∷ [] }))

-- Only a write that is reported as completed counts.
on_call-total :
    (o : ConnOwner) (k : Call) (r : ConnRun)
    → is_completed k ≡ false
    → (on_call o k r).c.total_written ≡ r.c.total_written
unfolding on_call client_read_cb conn_write_cb client_ev_close_cb
on_call-total o (read_done cb s n) r e =
    ground (arith, notify-total o conn_state_error r, update_stats-total o 0 n r)
on_call-total o (write_done cb s n) r e =
    ground (arith, notify-total o conn_state_error (set_state conn_state_error r))
on_call-total o (close_done cb) r e = refl
on_call-total o _ r e = refl

-- The connection after it heard the calls `ks` of its object in their order, with any calls of conn_close
-- and of conn_set_stats_cb by its owner in between.
pub data Heard (o : ConnOwner) (r : ConnRun) : List Call → ConnRun → Type 0 where
  heard_none : Heard o r [] r
  hears :
      {ks : List Call} {s : ConnRun} (k : Call)
      → Heard o r ks s
      → Heard o r (ks ++ k ∷ []) (on_call o k s)
  is_closed : {ks : List Call} {s : ConnRun} → Heard o r ks s → Heard o r ks (conn_close s)
  sets_callback :
      {ks : List Call} {s : ConnRun} (cb : Bool)
      → Heard o r ks s
      → Heard o r ks (conn_set_stats_cb cb s)

Heard-total :
    {o : ConnOwner} {r s : ConnRun} {ks : List Call}
    → Heard o r ks s
    → count_calls is_completed ks ≡ 0
    → s.c.total_written ≡ r.c.total_written
unfolding conn_set_stats_cb
Heard-total heard_none e = refl
Heard-total {o} (hears {ks} {s} k h) e =
    let n = count-snoc is_completed ks k in
    on_call-total o k s (ground (arith, e, n)) ∙ Heard-total h (omega (arith, e, n))
Heard-total (is_closed {s = s} h) e = conn_close-total s ∙ Heard-total h e
Heard-total (sets_callback cb h) e = Heard-total h e

-- For a comm object that has told of no completed write, and any owner of it; after any history of it in which
-- write(2) writes no more than it is asked to, and for a connection that heard the calls of the
-- object in their order, with any conn_close and conn_set_stats_cb in between: the bytes that the
-- connection counts as written are where they were at its start.
pub total-CommReach :
    (o : ConnOwner) (owner : Call → World → World)
    → IsOwner owner
    → (r s : ConnRun) {w u : World} → CommReach owner w u
    → completions w ≡ 0
    → Heard o r u.calls s
    → s.c.total_written ≡ r.c.total_written
total-CommReach o owner i r s h e d = Heard-total d (completions-CommReach owner i h ∙ e)

on_call-eof :
    (o : ConnOwner) (s : ConnRun) (cb n : ℕ)
    → s.c.state ≡ conn_state_running
    → s.c.cb ≡ true
    → ((c : Conn) → o.update_closes c conn_state_error ≡ false)
    → on_call o (write_done cb eof n) s
      ≡ record (set_state conn_state_error s) { told = s.told ++ conn_state_error ∷ [] }
unfolding on_call conn_write_cb notify tell
on_call-eof o s cb n e f d =
    let q : is_running_state s.c.state ≡ true = ap is_running_state e in
    ground (arith, q, f, d (set_state conn_state_error s).c)

-- A running connection with a callback, whose owner does not close it on an error, over an open object: its
-- first buffer is being written, nothing of it is written yet, and the socket takes all the bytes at once
-- and answers 0 to a write of no bytes. Two runs of comm_cb_write_cb leave the connection in
-- CONN_STATE_ERROR, with its owner told so, and with nothing counted as written, although the whole buffer was.
pub comm_cb_write_cb-conn_write_cb :
    (o : ConnOwner) (r : ConnRun) (write : ℕ → ℕ → ℕ → SysResult) (w : World) (n : ℕ)
    → w.c.is_closing ≡ false
    → w.c.w.is_active ≡ true
    → w.c.w.is_ready ≡ true
    → w.c.w.offset ≡ 0
    → w.c.w.len ≡ suc n
    → ((nb i k : ℕ) → write nb i k ≡ got k)
    → (replay o r w.calls).c.state ≡ conn_state_running
    → (replay o r w.calls).c.cb ≡ true
    → ((c : Conn) → o.update_closes c conn_state_error ≡ false)
    → (let v = comm_cb_write_cb (attach o r) write (comm_cb_write_cb (attach o r) write w) in
        let s = replay o r w.calls in
        replay o r v.calls
        ≡ record (set_state conn_state_error s) { told = s.told ++ conn_state_error ∷ [] })
unfolding replay
comm_cb_write_cb-conn_write_cb o r write w n cl a rd z l all e f d =
    ap (replay o r) (
      comm_cb_write_cb-comm_cb_write_cb (attach o r) (attach-IsOwner o r) write w n cl a rd z l all)
    ∙ replay-append o r w.calls (write_done w.c.w.cb eof w.c.w.len ∷ [])
    ∙ on_call-eof o (replay o r w.calls) w.c.w.cb w.c.w.len e f d
