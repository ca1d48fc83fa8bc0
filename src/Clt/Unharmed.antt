-- ===== src/Clt/Unharmed.antt =====
-- No thread of src/clt/clt.c uses a NULL, where its comm objects keep their promises and nothing fails to be made.
use libiapp.Base.{
  ℕ, zero, suc, ◌≡◌, refl, Bool, true, false, not, Option, none, some, ℤ, minus_one, arith, if_both,
  has, has-snoc, store, ==_iff,
}
use libiapp.Fde.Event.{FdeHead, callback}
use libiapp.Fde.Register.{fde_create}
use libiapp.Fde.Timeout.{lt_zero}
use libiapp.Shm.State.{Ran, returned, blocks, aborts}
use libiapp.Netbuf.State.{NetHeap}
use libiapp.Comm.Create.{comm_create}
use libiapp.Conn.State.{conn_state_connecting, is_closing_state}
use libiapp.Conn.New.{is_made}
use libiapp.Clt.State.{CltConn, CltApp, connect_of}
use libiapp.Clt.Handlers.{set_clt_state}
use libiapp.Clt.New.{OpenCalls, fresh_conn, with_socket, clt_with_netbuf, clt_conn_new}
use libiapp.Clt.App.{
  AddrInfo, start_connecting, thrclt_open_new_conn, is_below, is_above, RoundCalls, after_open,
  open_more,
}
use libiapp.Clt.Alive.{is_there, AreAlive, use_comm-AreAlive, set_clt_state-AreAlive}

-- comm_create and fde_create succeed.
abbrev pub Makes : OpenCalls → Type 0
Makes sys =
    let n = sys.new in
    ((h : FdeHead) (fd : ℤ)
      → is_made (comm_create n.calloc_comm n.note_eof n.handlers h fd (some n.close_cb)).1 ≡ true)
    × ((h : FdeHead)
        → is_there (fde_create n.calloc_ev n.note_eof h minus_one callback false n.cleanup_cb).1
          ≡ true)

-- What conn_new leaves, where it returns.
abbrev NewAlive : Ran (CltApp × Option ℕ) → Type 0
NewAlive (returned (t, none)) = AreAlive t
NewAlive (returned (t, some c)) =
    AreAlive t × (has c t.conn_list ≡ true) × (is_closing_state (t.conns c).state ≡ false)
NewAlive blocks = Unit {0}
NewAlive aborts = Unit {0}

module _ (sys : OpenCalls) (k : Makes sys) (s : CltApp) (v : AreAlive s) where
  -- The rest of conn_new for a connection with a netbuf, over a heap `m`.
  with_socket-NewAlive :
      (c : ℕ) (x : CltConn) (m : NetHeap) (mem : ℕ → ℕ)
      → is_there x.nb ≡ true
      → is_closing_state x.state ≡ false
      → NewAlive (returned (with_socket sys c x (record s { net = m; memory = mem }), some c))
  unfolding with_socket store
  with_socket-NewAlive c x m mem e f =
      let n = sys.new in
      let made = comm_create n.calloc_comm n.note_eof n.handlers s.h x.fd (some n.close_cb) in
      let ev = fde_create n.calloc_ev n.note_eof made.0 minus_one callback false n.cleanup_cb in
      let a = k.0 s.h x.fd in
      let b = k.1 made.0 in
      (
        record {
          alive =
              λ d p. ground (arith, a, b, e, f, p, has-snoc d c s.conn_list, v.alive d, ==_iff c d);
          unharmed = ground (arith, a, v.unharmed);
        },
        ground (arith, has-snoc c c s.conn_list, a),
        ground (arith, f, a),
      )

  clt_with_netbuf-NewAlive :
      (ai_family c r_buf : ℕ) (r : Ran (NetHeap × Option ℕ))
      → NewAlive (clt_with_netbuf sys ai_family c r_buf s r)
  unfolding clt_with_netbuf
  clt_with_netbuf-NewAlive ai_family c r_buf (returned (n, some nb)) =
      let fd = sys.socket ai_family in
      let x = fresh_conn fd s.max_io_size r_buf nb in
      if_both NewAlive (lt_zero fd) {x = aborts} tt (with_socket-NewAlive c x n _ refl refl)
  clt_with_netbuf-NewAlive ai_family c r_buf (returned (n, none)) = record {
    alive = v.alive;
    unharmed = v.unharmed;
  }
  clt_with_netbuf-NewAlive ai_family c r_buf blocks = tt
  clt_with_netbuf-NewAlive ai_family c r_buf aborts = tt

  clt_conn_new-NewAlive : (ai_family : ℕ) → NewAlive (clt_conn_new sys ai_family s)
  unfolding clt_conn_new
  clt_conn_new-NewAlive ai_family =
      let same : NewAlive (returned (s, none)) = v in
      if_both NewAlive (not sys.new.calloc) same (
        if_both NewAlive (not sys.new.malloc_buf)
          (record { alive = v.alive; unharmed = v.unharmed })
          (clt_with_netbuf-NewAlive ai_family s.net.next_block (suc s.net.next_block) _))

-- What thrclt_open_new_conn leaves, where it returns, and what a round does.
abbrev OpenAlive : Ran (CltApp × Bool) → Type 0
OpenAlive (returned (t, b)) = AreAlive t
OpenAlive blocks = Unit {0}
OpenAlive aborts = Unit {0}

abbrev pub RanAlive : Ran CltApp → Type 0
RanAlive (returned t) = AreAlive t
RanAlive blocks = Unit {0}
RanAlive aborts = Unit {0}

start_connecting-OpenAlive :
    (ai : AddrInfo) (r : Ran (CltApp × Option ℕ)) → NewAlive r → OpenAlive (start_connecting ai r)
unfolding start_connecting store
start_connecting-OpenAlive ai (returned (t, none)) v = v
start_connecting-OpenAlive ai (returned (t, some c)) (v, h, f) =
    let u = set_clt_state conn_state_connecting c t in
    let a = connect_of c ai.ai_addr ai.ai_addrlen in
    let w = set_clt_state-AreAlive c t v conn_state_connecting refl f in
    let z = use_comm-AreAlive c u w a (ground (arith, v.alive c h, f)) in
    record { alive = z.alive; unharmed = z.unharmed }
start_connecting-OpenAlive ai blocks v = tt
start_connecting-OpenAlive ai aborts v = tt

thrclt_open_new_conn-OpenAlive :
    (sys : OpenCalls) (ai : Option AddrInfo) (s : CltApp)
    → Makes sys
    → AreAlive s
    → OpenAlive (thrclt_open_new_conn sys ai s)
unfolding thrclt_open_new_conn
thrclt_open_new_conn-OpenAlive sys none s k v = v
thrclt_open_new_conn-OpenAlive sys (some ai) s k v =
    start_connecting-OpenAlive ai _ (clt_conn_new-NewAlive sys k s v ai.ai_family)

after_open-RanAlive :
    (i : ℕ) (go : CltApp → Ran CltApp) (r : Ran (CltApp × Bool))
    → ((t : CltApp) → AreAlive t → RanAlive (go t))
    → OpenAlive r
    → RanAlive (after_open i go r)
unfolding after_open
after_open-RanAlive i go (returned (t, false)) g v = v
after_open-RanAlive i go (returned (t, true)) g v =
    if_both RanAlive (is_above (suc i) t.connrate) {x = returned t} v (g t v)
after_open-RanAlive i go blocks g v = tt
after_open-RanAlive i go aborts g v = tt

pub open_more-RanAlive :
    (fuel : ℕ) (sys : RoundCalls) (i : ℕ) (s : CltApp)
    → ((j : ℕ) → Makes (sys.opens j))
    → AreAlive s
    → RanAlive (open_more fuel sys i s)
unfolding open_more
open_more-RanAlive zero sys i s k v = tt
open_more-RanAlive (suc fuel) sys i s k v =
    if_both RanAlive (is_below s.num_clients s.nconns) {y = returned s}
      (after_open-RanAlive i (open_more fuel sys (suc i)) _
        (λ t w. open_more-RanAlive fuel sys (suc i) t k w)
        (thrclt_open_new_conn-OpenAlive (sys.opens i) (sys.finds i) s (k i) v))
      v
