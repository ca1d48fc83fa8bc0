-- ===== src/Conn/Life.antt =====
-- The life of a connection of lib/libiapp/conn.c: what it asks of its comm object, and when.
use libiapp.Base.{ℕ, ◌≡◌, refl, Bool, true, false, not, Option, none, some, ℤ, arith, if_both}
use mathlib.Core.Path.{subst}
use libiapp.Shm.State.{Ran, returned, blocks, aborts}
use libiapp.Netbuf.State.{NetHeap}
use libiapp.Comm.State.{CommStatus, FdeComm}
use libiapp.Conn.State.{Cfg, Conn, asks_cleanup, ConnRun, ConnOwner, is_closing_state}
use libiapp.Conn.Handlers.{conn_close, conn_write_cb, client_ev_close_cb, conn_set_stats_cb}
use libiapp.Conn.New.{NewCalls, Place, is_made, start, NewResult, with_netbuf, conn_new}
use libiapp.Conn.Fine.{
  all_sound, count_closes, count_closing, IsFine, all_sound-snoc, count_closes-snoc,
  conn_close-IsFine, conn_write_cb-IsFine,
}

-- One callback from the comm object, or one call of the owner. The comm object says that it is closed
-- only after it was asked to close.
pub data ConnStep (o : ConnOwner) (s : ConnRun) : ConnRun → Type 0 where
  writes : (st : CommStatus) (n : ℕ) → ConnStep o s (conn_write_cb o st n s)
  closes : ConnStep o s (conn_close s)
  sets_stats : (cb : Bool) → ConnStep o s (conn_set_stats_cb cb s)
  closed : is_closing_state s.c.state ≡ true → ConnStep o s (client_ev_close_cb s)

pub data ConnReach (o : ConnOwner) (s : ConnRun) : ConnRun → Type 0 where
  here : ConnReach o s s
  next : {t u : ConnRun} → ConnReach o s t → ConnStep o t u → ConnReach o s u

ConnStep-IsFine :
    (o : ConnOwner)
    → ((c : Conn) → o.stats_closes c ≡ false)
    → {s t : ConnRun} → ConnStep o s t
    → IsFine s
    → IsFine t
unfolding conn_set_stats_cb client_ev_close_cb
ConnStep-IsFine o d {s} (writes st n) v = conn_write_cb-IsFine o d st n s v
ConnStep-IsFine o d {s} closes v = conn_close-IsFine s v
ConnStep-IsFine o d (sets_stats cb) v = record {
  linked = v.linked;
  sound = v.sound;
  closed_once = v.closed_once;
  told_once = v.told_once;
}
ConnStep-IsFine o d {s} (closed e) v = record {
  linked = ground arith;
  sound = ground (arith, v.sound, all_sound-snoc s.asks (asks_cleanup s.c.ev_cleanup));
  closed_once =
      ground (arith, v.closed_once, count_closes-snoc s.asks (asks_cleanup s.c.ev_cleanup));
  told_once = v.told_once;
}

ConnReach-IsFine :
    (o : ConnOwner)
    → ((c : Conn) → o.stats_closes c ≡ false)
    → {s t : ConnRun} → ConnReach o s t
    → IsFine s
    → IsFine t
ConnReach-IsFine o d here v = v
ConnReach-IsFine o d (next r x) v = ConnStep-IsFine o d x (ConnReach-IsFine o d r v)

-- What conn_new returned is fine where comm_create made an object.
abbrev pub Born : Ran NewResult → Type 0
Born (returned (q, some (s, fc))) =
    (all_sound s.asks ≡ is_made fc) × (s.c.comm ≡ is_made fc) × (is_made fc ≡ true → IsFine s)
Born _ = Unit

start-Born :
    (sys : NewCalls) (p : Place) (cfg : Cfg) (fd : ℤ) (cb : Bool) (self r_buf nb : ℕ)
    → (let (q, s, fc) = start sys p cfg fd cb self r_buf nb in Born (returned (q, some (s, fc))))
unfolding start all_sound count_closes count_closing
start-Born sys p cfg fd cb self r_buf nb = (
  ground arith,
  refl,
  λ m. record { linked = m; sound = ground (arith, m); closed_once = refl; told_once = refl },
)

with_netbuf-Born :
    (sys : NewCalls) (p : Place) (cfg : Cfg) (fd : ℤ) (cb : Bool) (self r_buf : ℕ)
    (r : Ran (NetHeap × Option ℕ))
    → Born (with_netbuf sys p cfg fd cb self r_buf r)
unfolding with_netbuf
with_netbuf-Born sys p cfg fd cb self r_buf (returned (h, some nb)) =
    let (q, s, fc) = start sys (record p { net = h }) cfg fd cb self r_buf nb in
    if_both Born (is_made fc) {x = returned (q, some (s, fc))} {y = aborts}
      (start-Born sys (record p { net = h }) cfg fd cb self r_buf nb) tt
with_netbuf-Born sys p cfg fd cb self r_buf (returned (h, none)) = tt
with_netbuf-Born sys p cfg fd cb self r_buf blocks = tt
with_netbuf-Born sys p cfg fd cb self r_buf aborts = tt

pub conn_new-Born :
    (sys : NewCalls) (p : Place) (cfg : Cfg) (fd : ℤ) (cb : Bool) → Born (conn_new sys p cfg fd cb)
unfolding conn_new
conn_new-Born sys p cfg fd cb =
    if_both Born (not sys.calloc) tt
      (if_both Born (not sys.malloc_buf) tt (with_netbuf-Born sys p cfg fd cb _ _ _))

-- From a connection that conn_new returned with a comm object, after any calls of the owner and any
-- callbacks from the comm object, of which none says that it is closed before it was asked to close, and for
-- an owner that does not close the connection while it is told of bytes: the pointer to the comm object is
-- NULL exactly from conn_close on; the object was asked to close once if the connection is closing
-- and never else; the owner was told of that once, if it has a callback; and no call was made on a NULL pointer.
pub conn_new-IsFine :
    (sys : NewCalls) (p q : Place) (cfg : Cfg) (fd : ℤ) (cb : Bool) (o : ConnOwner) (s : ConnRun)
    (fc : FdeComm) {t : ConnRun}
    → conn_new sys p cfg fd cb ≡ returned (q, some (s, some fc))
    → ((c : Conn) → o.stats_closes c ≡ false)
    → ConnReach o s t
    → IsFine t
conn_new-IsFine sys p q cfg fd cb o s fc e d r =
    ConnReach-IsFine o d r ((subst Born e (conn_new-Born sys p cfg fd cb)).2 refl)
