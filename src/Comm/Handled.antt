-- ===== src/Comm/Handled.antt =====
-- The handlers of lib/libiapp/comm.c for reads and writes, and what they do to the event loop.
use libiapp.Base.{
  ℕ, zero, suc, refl, true, false, not, ◌||◌, Option, none, some, [], ◌∷◌, ◌++◌, arith, ltb, pos,
  if_both, has,
}
use libiapp.Comm.State.{
  Call, closing, read_done, World, SysResult, got, would_block, interrupted, sys_error, set_r,
  set_w, comm_is_close_ready,
}
use libiapp.Comm.Handlers.{
  closing_or, reset_read, comm_cb_read, comm_cb_write, deliver, read_result, read_on, closing_read,
  comm_cb_read_cb, comm_cb_write_complete, write_result, write_on, closing_write, comm_cb_write_cb,
}
use libiapp.Comm.Reach.{IsOwner}
use libiapp.Comm.Wiring.{
  IsWired, Link, Link-trans, aside, add-Link, delete-Link, stay, comm_start_cleanup-Link,
}
use libiapp.Comm.Wired.{onward, Api-Link}

pub closing_or-Link :
    {w : World} (v u : World)
    → IsWired w
    → Link w v
    → (IsWired v → Link v u)
    → Link w (closing_or v u)
unfolding closing_or
closing_or-Link {w} v u i p q =
    if_both (Link w) (comm_is_close_ready v.c) (onward i p (comm_start_cleanup-Link v))
      (onward i p q)

module _ (w : World) (v : IsWired w) where
  reset_read-Link : Link w (reset_read w)
  unfolding reset_read has
  reset_read-Link = Link-trans (delete-Link w v w.c.ev_read (ground arith)) (aside refl refl)

  pub comm_cb_read-Link : Link w (comm_cb_read w)
  unfolding comm_cb_read has
  comm_cb_read-Link =
      let u = set_r w (record (w.c.r) { is_ready = true }) in
      if_both (Link w) w.c.r.is_active
        (Link-trans {v = u} (aside refl refl) (add-Link u v w.c.ev_read_cb (ground arith)))
        (aside refl refl)

  pub comm_cb_write-Link : Link w (comm_cb_write w)
  unfolding comm_cb_write has
  comm_cb_write-Link =
      let u = set_w w (record (w.c.w) { is_ready = true }) in
      if_both (Link w) w.c.w.is_active
        (Link-trans {v = u} (aside refl refl) (add-Link u v w.c.ev_write_cb (ground arith)))
        (aside refl refl)

module _ (owner : Call → World → World) (o : IsOwner owner) where
  pub deliver-Link : (k : Call) (w : World) → IsWired w → Link w (deliver owner k w)
  unfolding deliver
  deliver-Link k w v =
      Link-trans (aside refl refl) (Api-Link (o k (record w { calls = w.calls ++ k ∷ [] })) v)

  stop_read-Link :
      (k : Call) (w : World)
      → IsWired w
      → Link w (deliver owner k (reset_read (set_r w (record (w.c.r) { is_active = false }))))
  stop_read-Link k w v =
      let u = set_r w (record (w.c.r) { is_active = false }) in
      onward {v = reset_read u} v (Link-trans {v = u} (aside refl refl) (reset_read-Link u v))
        (deliver-Link k (reset_read u))

  read_result-Link : (res : SysResult) (w : World) → IsWired w → Link w (read_result owner res w)
  unfolding read_result
  read_result-Link (would_block e) w v = stay
  read_result-Link (got zero) w v = stop_read-Link _ w v
  read_result-Link (got (suc n)) w v =
      let u = set_r w (record (w.c.r) { is_active = false }) in
      Link-trans {v = u} (aside refl refl) (deliver-Link _ u v)
  read_result-Link (interrupted e) w v = stop_read-Link _ w v
  read_result-Link (sys_error e) w v = stop_read-Link _ w v

  read_on-Link : (read : ℕ → ℕ → SysResult) (w : World) → IsWired w → Link w (read_on owner read w)
  unfolding read_on
  read_on-Link read w v =
      if_both (Link w) w.c.r.is_active (read_result-Link _ w v) (reset_read-Link w v)

  closing_read-Link : (w : World) → IsWired w → Link w (closing_read owner w)
  unfolding closing_read
  closing_read-Link w v =
      let u = set_r w (record (w.c.r) { is_active = false }) in
      let k = read_done w.c.r.cb closing (pos 0) in
      onward {v = deliver owner k u} v (Link-trans {v = u} (aside refl refl) (deliver-Link k u v))
        (reset_read-Link (deliver owner k u))

  pub comm_cb_read_cb-Link :
      (read : ℕ → ℕ → SysResult) (w : World) → IsWired w → Link w (comm_cb_read_cb owner read w)
  unfolding comm_cb_read_cb
  comm_cb_read_cb-Link read w v =
      let u = closing_read owner w in
      if_both (Link w) w.c.is_closing
        (closing_or-Link u (read_on owner read u) v (closing_read-Link w v) (read_on-Link read u))
        (read_on-Link read w v)

  comm_cb_write_complete-Link :
      (r : Option ℕ) (w : World) → IsWired w → Link w (comm_cb_write_complete owner r w)
  unfolding comm_cb_write_complete
  comm_cb_write_complete-Link none w v =
      let u = set_w w (record (w.c.w) { is_active = false }) in
      Link-trans {v = u} (aside refl refl) (deliver-Link _ u v)
  comm_cb_write_complete-Link (some n) w v =
      let u = set_w w (record (w.c.w) { is_active = false }) in
      if_both (Link w) (ltb w.c.w.offset w.c.w.len) stay
        (Link-trans {v = u} (aside refl refl) (deliver-Link _ u v))

  write_result-Link : (res : SysResult) (w : World) → IsWired w → Link w (write_result owner res w)
  unfolding write_result
  write_result-Link (would_block e) w v = stay
  write_result-Link (got zero) w v = comm_cb_write_complete-Link (some 0) w v
  write_result-Link (got (suc n)) w v = aside refl refl
  write_result-Link (interrupted e) w v = comm_cb_write_complete-Link none w v
  write_result-Link (sys_error e) w v = comm_cb_write_complete-Link none w v

  write_on-Link :
      (write : ℕ → ℕ → ℕ → SysResult) (w : World) → IsWired w → Link w (write_on owner write w)
  unfolding write_on
  write_on-Link write w v =
      if_both (Link w) (not w.c.w.is_active || not w.c.w.is_ready) stay (write_result-Link _ w v)

  closing_write-Link : (w : World) → IsWired w → Link w (closing_write owner w)
  unfolding closing_write
  closing_write-Link w v =
      let u = set_w w (record (w.c.w) { is_active = false; is_ready = false }) in
      Link-trans {v = u} (aside refl refl) (deliver-Link _ u v)

  pub comm_cb_write_cb-Link :
      (write : ℕ → ℕ → ℕ → SysResult) (w : World)
      → IsWired w
      → Link w (comm_cb_write_cb owner write w)
  unfolding comm_cb_write_cb
  comm_cb_write_cb-Link write w v =
      let u = closing_write owner w in
      if_both (Link w) w.c.is_closing
        (closing_or-Link u (write_on owner write u) v (closing_write-Link w v)
          (write_on-Link write u))
        (write_on-Link write w v)
