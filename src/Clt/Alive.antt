-- ===== src/Clt/Alive.antt =====
-- The pointers of the connections of src/clt/clt.c to their comm object and their cleanup event.
use libiapp.Base.{
  ℕ, ◌+◌, ◌%◌, ◌^◌, ◌≡◌, refl, ap, ◌∙◌, Bool, true, false, not, ◌&&◌, Option, none, some, ℤ, pos,
  negsuc, arith, ◌==◌, if_both, if_cases, has, store, ==_iff,
}
use libiapp.Fde.Register.{fde_add}
use libiapp.Netbuf.Alloc.{iapp_netbuf_size}
use libiapp.Comm.State.{CommStatus}
use libiapp.Conn.State.{
  ConnState, conn_state_none, conn_state_freeing, conn_state_running, conn_state_error,
  conn_state_closing, conn_state_connecting, is_closing_state, is_running_state,
}
use libiapp.Conn.Handlers.{is_completed_status}
use libiapp.Clt.State.{CltConn, CltApp, CommAsk, read_of, write_of, set_conn, use_comm, with_event}
use libiapp.Clt.Handlers.{
  set_clt_state, clt_close, thrclt_conn_update_cb, fail_conn, clt_write_more, clt_write_cb,
  count_read, clt_read_cb, clt_close_cb, conn_connect_cb,
}

abbrev pub is_there : Option ℕ → Bool
is_there none = false
is_there (some a) = true

-- A connection has its comm object until it closes, and its cleanup event and its netbuf always.
abbrev pub IsAlive : CltConn → Type 0
IsAlive x =
    (x.comm ≡ not (is_closing_state x.state))
    × (is_there x.ev_cleanup ≡ true)
    × (is_there x.nb ≡ true)

-- So for the connections on the list; and no NULL was used.
pub record AreAlive (s : CltApp) : Type 0 where
  pub alive : (c : ℕ) → has c s.conn_list ≡ true → IsAlive (s.conns c)
  pub unharmed : s.faults ≡ 0

module _ (c : ℕ) (s : CltApp) (v : AreAlive s) where
  -- A call on the comm object of a connection that has one.
  pub use_comm-AreAlive : (a : CommAsk) → (s.conns c).comm ≡ true → AreAlive (use_comm c a s)
  use_comm-AreAlive a e = record {
    alive = λ d p. ground (arith, e, v.alive d);
    unharmed = ground (arith, e, v.unharmed);
  }

  pub clt_close-AreAlive : has c s.conn_list ≡ true → AreAlive (clt_close c s)
  unfolding clt_close store
  clt_close-AreAlive h = record {
    alive = λ d p. ground (arith, h, v.alive d, v.alive c, ==_iff c d);
    unharmed = ground (arith, h, v.alive c, v.unharmed);
  }

  -- A connection that is not closing goes on to another state.
  pub set_clt_state-AreAlive :
      (x : ConnState)
      → is_closing_state x ≡ false
      → is_closing_state (s.conns c).state ≡ false
      → AreAlive (set_clt_state x c s)
  unfolding store
  set_clt_state-AreAlive x e f = record {
    alive = λ d p. ground (arith, e, f, v.alive d, ==_iff c d);
    unharmed = v.unharmed;
  }

  -- Counters of a connection change.
  set_conn-AreAlive :
      (x : CltConn)
      → x.comm ≡ (s.conns c).comm
      → x.state ≡ (s.conns c).state
      → x.ev_cleanup ≡ (s.conns c).ev_cleanup
      → x.nb ≡ (s.conns c).nb
      → AreAlive (set_conn s c x)
  unfolding store
  set_conn-AreAlive x p q r n = record {
    alive = λ d l. (
      ground (arith, p, ap is_closing_state q, v.alive d l, ==_iff c d),
      ground (arith, ap is_there r, v.alive d l, ==_iff c d),
      ground (arith, ap is_there n, v.alive d l, ==_iff c d),
    );
    unharmed = v.unharmed;
  }

module _ (c : ℕ) (s : CltApp) (v : AreAlive s) (h : has c s.conn_list ≡ true) where
  fail_conn-AreAlive : is_closing_state (s.conns c).state ≡ false → AreAlive (fail_conn c s)
  unfolding thrclt_conn_update_cb
  fail_conn-AreAlive f =
      clt_close-AreAlive c (set_clt_state conn_state_error c s)
        (set_clt_state-AreAlive c s v conn_state_error refl f) h

  pub clt_close_cb-AreAlive : AreAlive (clt_close_cb c s)
  unfolding clt_close_cb
  clt_close_cb-AreAlive = go (s.conns c).ev_cleanup (v.alive c h).1
    where
      go : (ev : Option ℕ) → is_there ev ≡ true → AreAlive (with_event fde_add ev s)
      go none e = cc
      go (some ev) e = record { alive = v.alive; unharmed = v.unharmed }

  pub conn_connect_cb-AreAlive :
      (st : CommStatus)
      → is_closing_state (s.conns c).state ≡ false
      → AreAlive (conn_connect_cb st c s)
  unfolding conn_connect_cb thrclt_conn_update_cb store
  conn_connect_cb-AreAlive st f =
      let t = set_clt_state conn_state_running c s in
      let r = set_clt_state-AreAlive c s v conn_state_running refl f in
      let u = record t { total_opened = (t.total_opened + 1) % 2 ^ 64 } in
      let w : AreAlive u = record { alive = r.alive; unharmed = r.unharmed } in
      let a = read_of c (u.conns c).r_buf (u.conns c).r_size in
      if_both AreAlive (not (is_completed_status st)) (fail_conn-AreAlive f) (
        if_both AreAlive (not (is_running_state (t.conns c).state)) r
          (use_comm-AreAlive c u w a (ground (arith, v.alive c h, f))))

  count_read-AreAlive : (retval : ℤ) → AreAlive (count_read retval c s)
  unfolding count_read
  count_read-AreAlive (pos n) =
      let x = s.conns c in
      let w =
        set_conn-AreAlive c s v (record x { total_read = (x.total_read + n) % 2 ^ 64 }) refl refl
          refl refl in
      record { alive = w.alive; unharmed = w.unharmed }
  count_read-AreAlive (negsuc n) = v

  count_read_comm : (retval : ℤ) → ((count_read retval c s).conns c).comm ≡ (s.conns c).comm
  unfolding count_read store
  count_read_comm (pos n) = ground arith
  count_read_comm (negsuc n) = refl

  pub clt_read_cb-AreAlive :
      (st : CommStatus) (retval : ℤ)
      → (is_completed_status st && is_closing_state (s.conns c).state) ≡ false
      → AreAlive (clt_read_cb st retval c s)
  unfolding clt_read_cb
  clt_read_cb-AreAlive st retval f =
      let t = count_read retval c s in
      let a = read_of c (t.conns c).r_buf (t.conns c).r_size in
      if_cases AreAlive (not (is_completed_status st)) (λ e. clt_close-AreAlive c s v h)
        (λ e.
          use_comm-AreAlive c t (count_read-AreAlive retval) a
            (count_read_comm retval ∙ ground (arith, v.alive c h, e, f)))

  -- The netbuf of a running connection is there, so the rest of conn_write_cb finds it.
  clt_write_more-AreAlive :
      (nwritten : ℕ) (nb : Option ℕ)
      → is_there nb ≡ true
      → is_closing_state (s.conns c).state ≡ false
      → AreAlive (clt_write_more nwritten c nb s)
  unfolding clt_write_more
  clt_write_more-AreAlive nwritten none e f = cc
  clt_write_more-AreAlive nwritten (some n) e f =
      let size = iapp_netbuf_size s.net n in
      if_both AreAlive _ (clt_close-AreAlive c s v h) (
        if_both AreAlive (not (nwritten == size)) (fail_conn-AreAlive f)
          (use_comm-AreAlive c s v (write_of c n 0 size) (ground (arith, v.alive c h, f))))

running_open : (x : ConnState) → is_running_state x ≡ true → is_closing_state x ≡ false
running_open conn_state_none e = refl
running_open conn_state_connecting e = refl
running_open conn_state_running e = refl
running_open conn_state_error e = refl
running_open conn_state_closing e = cc
running_open conn_state_freeing e = refl

pub clt_write_cb-AreAlive :
    (c : ℕ) (s : CltApp) (v : AreAlive s) (h : has c s.conn_list ≡ true) (st : CommStatus)
    (nwritten : ℕ)
    → AreAlive (clt_write_cb st nwritten c s)
unfolding clt_write_cb store
clt_write_cb-AreAlive c s v h st nwritten =
    let x = s.conns c in
    let y = record x { total_written = (x.total_written + nwritten) % 2 ^ 64 } in
    let t = record (set_conn s c y) { total_written = (s.total_written + nwritten) % 2 ^ 64 } in
    let w = set_conn-AreAlive c s v y refl refl refl refl in
    let u : AreAlive t = record { alive = w.alive; unharmed = w.unharmed } in
    if_cases AreAlive (not (is_running_state x.state)) (λ e. v)
      (λ e.
        let f = running_open x.state (ground (arith, e)) in
        if_both AreAlive (not (is_completed_status st)) (fail_conn-AreAlive c s v h f)
          (clt_write_more-AreAlive c t u h nwritten x.nb (v.alive c h).2 (ground (arith, f))))
