-- ===== src/Comm/Handlers.antt =====
-- lib/libiapp/comm.c: what the event loop runs for a comm object. `owner` is what the owner's
-- callbacks do with the object; what a system call returns is an argument.
use libiapp.Base.{
  ℕ, zero, suc, ◌+◌, ◌-◌, true, false, not, ◌||◌, Option, none, some, [], ◌∷◌, ◌++◌, pos, minus_one,
  ltb, ◌==◌, if◌then◌else◌,
}
use libiapp.Comm.State.{
  completed, closing, error, eof, Call, read_done, write_done, World, SysResult, got, would_block,
  add_event, delete_event, set_r, set_w, comm_is_close_ready, comm_start_cleanup,
}

-- The end of each closing branch: start the cleanup if nothing is in progress, or go on.
unfoldable pub closing_or : World → World → World
unfolding comm_is_close_ready comm_start_cleanup
closing_or w onward = if comm_is_close_ready w.c then comm_start_cleanup w else onward

-- The `is_read = is_ready = 0` after an fde_delete of the read event.
unfoldable pub reset_read : World → World
reset_read w =
    let v = delete_event w.c.ev_read w in
    set_r v (record (v.c.r) { is_read = false; is_ready = false })

-- comm_cb_read.
unfoldable pub comm_cb_read : World → World
comm_cb_read w =
    let v = set_r w (record (w.c.r) { is_ready = true }) in
    if v.c.r.is_active then add_event v.c.ev_read_cb v else v

-- comm_cb_write.
unfoldable pub comm_cb_write : World → World
comm_cb_write w =
    let v = set_w w (record (w.c.w) { is_ready = true }) in
    if v.c.w.is_active then add_event v.c.ev_write_cb v else v

module _ (owner : Call → World → World) where
  -- A call of the owner: it is recorded, and the owner acts.
  unfoldable pub deliver : Call → World → World
  deliver k w = owner k (record w { calls = w.calls ++ k ∷ [] })

  -- comm_cb_read_cb behind the read(2), with its result.
  unfoldable pub read_result : SysResult → World → World
  unfolding deliver reset_read
  read_result (would_block e) w = w
  read_result (got zero) w =
      let v = reset_read (set_r w (record (w.c.r) { is_active = false })) in
      deliver (read_done v.c.r.cb eof (pos 0)) v
  read_result (got (suc n)) w =
      let v = set_r w (record (w.c.r) { is_active = false }) in
      deliver (read_done v.c.r.cb completed (pos (suc n))) v
  read_result _ w =
      let v = reset_read (set_r w (record (w.c.r) { is_active = false })) in
      deliver (read_done v.c.r.cb error minus_one) v

  -- comm_cb_read_cb behind its closing branch. `read` is read(2) on the buffer and the length.
  unfoldable pub read_on : (read : ℕ → ℕ → SysResult) → World → World
  unfolding read_result reset_read
  read_on read w =
      if w.c.r.is_active then read_result (read w.c.r.buf w.c.r.len) w else reset_read w

  -- The closing branch of comm_cb_read_cb.
  unfoldable pub closing_read : World → World
  unfolding deliver reset_read
  closing_read w =
      let v = set_r w (record (w.c.r) { is_active = false }) in
      reset_read (deliver (read_done v.c.r.cb closing (pos 0)) v)

  -- comm_cb_read_cb.
  unfoldable pub comm_cb_read_cb : (read : ℕ → ℕ → SysResult) → World → World
  unfolding closing_or closing_read read_on
  comm_cb_read_cb read w =
      if w.c.is_closing
      then (let v = closing_read w in closing_or v (read_on read v))
      else read_on read w

  -- comm_cb_write_complete; `ret` is the result of write(2), `none` for -1.
  unfoldable pub comm_cb_write_complete : Option ℕ → World → World
  unfolding deliver
  comm_cb_write_complete none w =
      let v = set_w w (record (w.c.w) { is_active = false }) in
      deliver (write_done v.c.w.cb error v.c.w.offset) v
  comm_cb_write_complete (some n) w =
      let v = set_w w (record (w.c.w) { is_active = false }) in
      if ltb w.c.w.offset w.c.w.len
      then w
      else deliver (write_done v.c.w.cb (if n == 0 then eof else completed) v.c.w.offset) v

  -- comm_cb_write_cb behind the write(2), with its result.
  unfoldable pub write_result : SysResult → World → World
  unfolding comm_cb_write_complete
  write_result (would_block e) w = w
  write_result (got zero) w = comm_cb_write_complete (some 0) w
  write_result (got (suc n)) w = set_w w (record (w.c.w) { offset = w.c.w.offset + suc n })
  write_result _ w = comm_cb_write_complete none w

  -- comm_cb_write_cb behind its closing branch. `write` is write(2): the netbuf, the place in it at
  -- which the data starts, and the length.
  unfoldable pub write_on : (write : ℕ → ℕ → ℕ → SysResult) → World → World
  unfolding write_result
  write_on write w =
      let s = w.c.w in
      if not s.is_active || not s.is_ready
      then w
      else write_result (write s.nb (s.nb_start_offset + s.offset) (s.len - s.offset)) w

  -- The closing branch of comm_cb_write_cb.
  unfoldable pub closing_write : World → World
  unfolding deliver
  closing_write w =
      let v = set_w w (record (w.c.w) { is_active = false; is_ready = false }) in
      deliver (write_done v.c.w.cb closing v.c.w.offset) v

  -- comm_cb_write_cb.
  unfoldable pub comm_cb_write_cb : (write : ℕ → ℕ → ℕ → SysResult) → World → World
  unfolding closing_or closing_write write_on
  comm_cb_write_cb write w =
      if w.c.is_closing
      then (let v = closing_write w in closing_or v (write_on write v))
      else write_on write w
