-- ===== src/Comm/Api.antt =====
-- lib/libiapp/comm.c: the calls that an owner makes. Each returns the new state and the C result.
use libiapp.Base.{
  ℕ, ◌+◌, true, false, not, ◌||◌, ◌++◌, [], ◌∷◌, ℤ, pos, minus_one, ltb, leb, if◌then◌else◌,
}
use libiapp.Comm.State.{
  UdpFrame, World, add_event, delete_event, set_r, set_w, set_a, set_co, set_udp_r, set_udp_w,
  comm_is_close_ready, comm_start_cleanup,
}

-- comm_mark_nonclose.
unfoldable pub comm_mark_nonclose : World → World
comm_mark_nonclose w = record w { c = record (w.c) { do_close = false } }

-- comm_close, the part for a read in progress.
unfoldable pub close_read : World → World
close_read w =
    if w.c.r.is_active
    then add_event w.c.ev_read_cb w
    else if w.c.r.is_read
    then (let v = delete_event w.c.ev_read w in set_r v (record (v.c.r) { is_read = false }))
    else w

-- comm_close, the part for a write in progress.
unfoldable pub close_write : World → World
close_write w =
    if w.c.w.is_active
    then add_event w.c.ev_write_cb w
    else if w.c.w.is_write
    then (let v = delete_event w.c.ev_write w in set_w v (record (v.c.w) { is_write = false }))
    else w

-- comm_close.
unfoldable pub comm_close : World → World
comm_close w =
    let v = close_write (close_read (record w { c = record (w.c) { is_closing = true } })) in
    if w.c.is_closing then w else if not (comm_is_close_ready v.c) then v else comm_start_cleanup v

-- comm_read, the registration for what the kernel reports.
unfoldable pub register_read : World → World
register_read w =
    if w.c.r.is_read then w else add_event w.c.ev_read (set_r w (record (w.c.r) { is_read = true }))

-- comm_read, where the socket is ready already.
unfoldable pub read_if_ready : World → World
read_if_ready w = if w.c.r.is_ready then add_event w.c.ev_read_cb w else w

-- comm_read, the read that is now in progress.
unfoldable pub begin_read : World → (buf len cb : ℕ) → World
begin_read w buf len cb =
    set_r (record w { reads = w.reads + 1 })
      (record (w.c.r) { is_active = true; buf = buf; len = len; cb = cb })

-- comm_read.
unfoldable pub comm_read : World → (buf len cb : ℕ) → World × ℤ
unfolding begin_read register_read read_if_ready
comm_read w buf len cb =
    if w.c.r.is_active
    then (w, minus_one)
    else (read_if_ready (register_read (begin_read w buf len cb)), pos 1)

-- comm_write, the buffer.
unfoldable pub set_buffer : World → (nb nb_start_offset len cb : ℕ) → World
set_buffer w nb nb_start_offset len cb =
    set_w w (record (w.c.w) {
      nb = nb;
      nb_start_offset = nb_start_offset;
      len = len;
      offset = 0;
      cb = cb;
    })

-- comm_write, the registration for what the kernel reports.
unfoldable pub register_write : World → World
register_write w =
    if w.c.w.is_write
    then w
    else (let v = add_event w.c.ev_write w in set_w v (record (v.c.w) { is_write = true }))

-- comm_write, the write that is now in progress.
unfoldable pub begin_write : World → World
begin_write w = set_w (record w { writes = w.writes + 1 }) (record (w.c.w) { is_active = true })

-- comm_write, where the socket is ready already.
unfoldable pub write_if_ready : World → World
write_if_ready w = if w.c.w.is_ready then add_event w.c.ev_write_cb w else w

-- comm_write.
unfoldable pub comm_write : World → (nb nb_start_offset len cb : ℕ) → World × ℤ
unfolding set_buffer register_write begin_write write_if_ready
comm_write w nb nb_start_offset len cb = if w.c.w.is_active then (w, minus_one) else (
  write_if_ready (begin_write (register_write (set_buffer w nb nb_start_offset len cb))),
  pos 0,
)

-- comm_listen.
unfoldable pub comm_listen : World → (cb : ℕ) → World × ℤ
comm_listen w cb =
    if w.c.a.is_active
    then (w, minus_one)
    else (set_a (add_event w.c.ev_accept w) (record { is_active = true; cb = cb }), pos 0)

-- comm_connect. `limit` is the size of a struct sockaddr_storage; the address itself is `sin`.
unfoldable pub comm_connect : ℕ → World → (sin slen cb : ℕ) → World × ℤ
comm_connect limit w sin slen cb =
    let v = set_co w (record { is_active = true; cb = cb; sin = sin; slen = slen }) in
    if w.c.co.is_active || ltb limit slen
    then (w, minus_one)
    else (add_event v.c.ev_connect_start v, pos 0)

-- comm_udp_read.
unfoldable pub comm_udp_read : World → (cb maxlen : ℕ) → World × ℤ
comm_udp_read w cb maxlen =
    let v = set_udp_r w (record { is_active = true; cb = cb; maxlen = maxlen }) in
    if w.c.udp_r.is_active then (w, minus_one) else (add_event v.c.ev_udp_read v, pos 0)

-- comm_udp_write_setup.
unfoldable pub comm_udp_write_setup : World → (cb qlen : ℕ) → World × ℤ
comm_udp_write_setup w cb qlen = if w.c.udp_w.is_active then (w, minus_one) else (
  set_udp_w w (record (w.c.udp_w) {
    cb = cb;
    is_active = true;
    is_primed = false;
    max_qlen = qlen;
    qlen = 0;
  }),
  pos 0,
)

-- comm_udp_write.
unfoldable pub comm_udp_write : World → UdpFrame → World × ℤ
comm_udp_write w fr =
    let s = w.c.udp_w in
    let v = set_udp_w w (record s { w_q = s.w_q ++ fr ∷ []; qlen = s.qlen + 1 }) in
    let primed =
      add_event v.c.ev_udp_write (set_udp_w v (record (v.c.udp_w) { is_primed = true })) in
    if not s.is_active || w.c.is_closing
    then (w, minus_one)
    else if leb s.max_qlen s.qlen
    then (w, minus_one)
    else (if s.is_primed then v else primed, pos 0)
