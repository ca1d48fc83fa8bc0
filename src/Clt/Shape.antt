-- ===== src/Clt/Shape.antt =====
-- What the callbacks of src/clt/clt.c leave as it is: the list of connections, its count, the memory and the
-- pointers to it.
use libiapp.Base.{
  ℕ, ◌+◌, ◌%◌, ◌^◌, ◌≡◌, refl, ◌∙◌, Bool, false, not, Option, none, some, List, ℤ, pos, negsuc,
  arith, ltb, ◌==◌, ◌&&◌, if◌then◌else◌, if_both, store,
}
use libiapp.Fde.Event.{FdeHead}
use libiapp.Fde.Register.{fde_add}
use libiapp.Netbuf.State.{NetHeap}
use libiapp.Netbuf.Alloc.{iapp_netbuf_size}
use libiapp.Comm.State.{CommStatus}
use libiapp.Conn.State.{
  conn_state_running, conn_state_error, conn_state_closing, is_closing_state, is_running_state,
}
use libiapp.Conn.Handlers.{is_completed_status}
use libiapp.Clt.State.{
  CltConn, CltApp, CommAsk, read_of, write_of, close_of, set_conn, use_comm, with_event,
}
use libiapp.Clt.Handlers.{
  set_clt_state, clt_close, thrclt_conn_update_cb, fail_conn, clt_write_more, clt_write_cb,
  count_read, clt_read_cb, clt_close_cb, conn_connect_cb,
}

-- The count and the list of connections, the memory, and the two buffers of a connection.
abbrev pub shape : ℕ → CltApp → ℕ × List ℕ × NetHeap × Option ℕ × Option ℕ
shape d s = (s.num_clients, s.conn_list, s.net, (s.conns d).r_buf, (s.conns d).nb)

module _ (d c : ℕ) where
  pub shape-set_conn :
      (s : CltApp) (x : CltConn)
      → x.r_buf ≡ (s.conns c).r_buf
      → x.nb ≡ (s.conns c).nb
      → shape d (set_conn s c x) ≡ shape d s
  unfolding store
  shape-set_conn s x p q = ground arith

  shape_either :
      (b : Bool) (s t u : CltApp)
      → shape d t ≡ shape d s
      → shape d u ≡ shape d s
      → shape d (if b then t else u) ≡ shape d s
  shape_either b s t u p q = if_both (λ v. shape d v ≡ shape d s) b p q

  pub shape-use_comm : (a : CommAsk) (s : CltApp) → shape d (use_comm c a s) ≡ shape d s
  shape-use_comm a s = if_both (λ t. shape d t ≡ shape d s) (s.conns c).comm refl refl

  pub shape-with_event :
      (f : FdeHead → ℕ → FdeHead) (ev : Option ℕ) (s : CltApp)
      → shape d (with_event f ev s) ≡ shape d s
  shape-with_event f none s = refl
  shape-with_event f (some ev) s = refl

  pub shape-clt_close : (s : CltApp) → shape d (clt_close c s) ≡ shape d s
  unfolding clt_close
  shape-clt_close s =
      let v = set_clt_state conn_state_closing c s in
      let t = use_comm c (close_of c) v in
      if_both (λ u. shape d u ≡ shape d s) (is_closing_state (s.conns c).state) refl
        (shape-set_conn t (record (t.conns c) { comm = false }) refl refl
          ∙ shape-use_comm (close_of c) v
          ∙ shape-set_conn s (record (s.conns c) { state = conn_state_closing }) refl refl)

  shape-fail_conn : (s : CltApp) → shape d (fail_conn c s) ≡ shape d s
  unfolding thrclt_conn_update_cb
  shape-fail_conn s =
      shape-clt_close (set_clt_state conn_state_error c s)
      ∙ shape-set_conn s (record (s.conns c) { state = conn_state_error }) refl refl

  shape-clt_write_more :
      (nwritten : ℕ) (nb : Option ℕ) (s : CltApp)
      → shape d (clt_write_more nwritten c nb s) ≡ shape d s
  unfolding clt_write_more
  shape-clt_write_more nwritten none s =
      if_both (λ t. shape d t ≡ shape d s) _ (shape-clt_close s) refl
  shape-clt_write_more nwritten (some n) s =
      let x = s.conns c in
      let size = iapp_netbuf_size s.net n in
      let a = write_of c n 0 size in
      if_both (λ t. shape d t ≡ shape d s)
        (not (x.write_close_thr == 0) && ltb x.write_close_thr x.total_written) (shape-clt_close s)
        (shape_either (not (nwritten == size)) s (fail_conn c s) (use_comm c a s)
          (shape-fail_conn s) (shape-use_comm a s))

  pub shape-clt_write_cb :
      (st : CommStatus) (nwritten : ℕ) (s : CltApp)
      → shape d (clt_write_cb st nwritten c s) ≡ shape d s
  unfolding clt_write_cb
  shape-clt_write_cb st nwritten s =
      let x = s.conns c in
      let y = record x { total_written = (x.total_written + nwritten) % 2 ^ 64 } in
      let t = record (set_conn s c y) { total_written = (s.total_written + nwritten) % 2 ^ 64 } in
      let v = clt_write_more nwritten c x.nb t in
      shape_either (not (is_running_state x.state)) s s
        (if not (is_completed_status st) then fail_conn c s else v) refl
        (shape_either (not (is_completed_status st)) s (fail_conn c s) v (shape-fail_conn s)
          (shape-clt_write_more nwritten x.nb t ∙ shape-set_conn s y refl refl))

  shape-count_read : (retval : ℤ) (s : CltApp) → shape d (count_read retval c s) ≡ shape d s
  unfolding count_read
  shape-count_read (pos n) s =
      let x = s.conns c in
      shape-set_conn s (record x { total_read = (x.total_read + n) % 2 ^ 64 }) refl refl
  shape-count_read (negsuc n) s = refl

  pub shape-clt_read_cb :
      (st : CommStatus) (retval : ℤ) (s : CltApp) → shape d (clt_read_cb st retval c s) ≡ shape d s
  unfolding clt_read_cb
  shape-clt_read_cb st retval s =
      let t = count_read retval c s in
      if_both (λ u. shape d u ≡ shape d s) _ (shape-clt_close s)
        (shape-use_comm (read_of c (t.conns c).r_buf (t.conns c).r_size) t
          ∙ shape-count_read retval s)

  pub shape-clt_close_cb : (s : CltApp) → shape d (clt_close_cb c s) ≡ shape d s
  unfolding clt_close_cb
  shape-clt_close_cb s = shape-with_event fde_add (s.conns c).ev_cleanup s

  pub shape-conn_connect_cb :
      (st : CommStatus) (s : CltApp) → shape d (conn_connect_cb st c s) ≡ shape d s
  unfolding conn_connect_cb thrclt_conn_update_cb
  shape-conn_connect_cb st s =
      let t = set_clt_state conn_state_running c s in
      let e = shape-set_conn s (record (s.conns c) { state = conn_state_running }) refl refl in
      let u = record t { total_opened = (t.total_opened + 1) % 2 ^ 64 } in
      let a = read_of c (u.conns c).r_buf (u.conns c).r_size in
      let v = use_comm c a u in
      shape_either (not (is_completed_status st)) s (fail_conn c s)
        (if not (is_running_state (t.conns c).state) then t else v) (shape-fail_conn s)
        (shape_either (not (is_running_state (t.conns c).state)) s t v e (shape-use_comm a u ∙ e))
