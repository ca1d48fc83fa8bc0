-- ===== src/Conn/Held.antt =====
-- What a connection of lib/libiapp/conn.c holds of the heap.
use libiapp.Base.{
  ℕ, ◌+◌, ◌%◌, ◌^◌, ◌≡◌, refl, ap, ◌∙◌, [], ◌∷◌, ◌++◌, ℤ, pos, arith, remove, remove_swap,
}
use libiapp.Shm.State.{ShmState, Ran, returned, blocks, aborts}
use libiapp.Shm.Reach.{returned_injective}
use libiapp.Netbuf.State.{
  NetbufAllocType, nb_alloc_none, nb_alloc_malloc, nb_alloc_posixshm, NetHeap, free_block,
}
use libiapp.Netbuf.Alloc.{iapp_netbuf_free, free_as, free_after}
use libiapp.Comm.State.{CommStatus}
use libiapp.Conn.State.{ConnState, conn_state_error, ConnRun, ConnOwner, set_state}
use libiapp.Conn.Handlers.{
  tell, conn_close, notify, update_stats, write_more, conn_write_cb, client_ev_close_cb,
  conn_set_stats_cb,
}
use libiapp.Conn.Life.{ConnStep, writes, closes, sets_stats, closed, ConnReach, here, next}

free_after-free_block :
    (u v : NetHeap) (n b : ℕ) (r : Ran ShmState)
    → free_after u n r ≡ returned v
    → free_after (free_block u b) n r ≡ returned (free_block v b)
unfolding free_after
free_after-free_block u v n b (returned s) e = ap returned (
    ap (λ l. record u { shm = s; live = l }) (remove_swap n b u.live)
    ∙ ap (λ x. free_block x b) (returned_injective e))
free_after-free_block u v n b blocks e = cc
free_after-free_block u v n b aborts e = cc

free_as-free_block :
    (u v : NetHeap) (n b : ℕ) (t : NetbufAllocType)
    → free_as u n t ≡ returned v
    → free_as (free_block u b) n t ≡ returned (free_block v b)
unfolding free_as
free_as-free_block u v n b nb_alloc_malloc e =
    let p = (u.bufs n).bufptr in
    ap returned (
      ap (λ l. record u { live = l })
        (ap (remove n) (remove_swap p b u.live) ∙ remove_swap n b (remove p u.live))
      ∙ ap (λ x. free_block x b) (returned_injective e))
free_as-free_block u v n b nb_alloc_posixshm e = free_after-free_block u v n b _ e
free_as-free_block u v n b nb_alloc_none e = ap returned (
    ap (λ l. record u { live = l }) (remove_swap n b u.live)
    ∙ ap (λ x. free_block x b) (returned_injective e))

pub iapp_netbuf_free-free_block :
    (u v : NetHeap) (n b : ℕ)
    → iapp_netbuf_free u n ≡ returned v
    → iapp_netbuf_free (free_block u b) n ≡ returned (free_block v b)
unfolding iapp_netbuf_free
iapp_netbuf_free-free_block u v n b e = free_as-free_block u v n b (u.bufs n).nb_type e

-- What the connection holds: its heap, its struct, its read buffer, its write buffer.
abbrev pub held : ConnRun → NetHeap × ℕ × ℕ × ℕ
held s = (s.net, s.c.self, s.c.r_buf, s.c.nb)

held-conn_close : (s : ConnRun) → held (conn_close s) ≡ held s
unfolding conn_close tell
held-conn_close s = ground arith

pub held-notify : (o : ConnOwner) (x : ConnState) (s : ConnRun) → held (notify o x s) ≡ held s
unfolding notify tell
held-notify o x s = ground (arith, held-conn_close (tell x s))

held-update_stats :
    (o : ConnOwner) (tx : ℕ) (rx : ℤ) (s : ConnRun) → held (update_stats o tx rx s) ≡ held s
unfolding update_stats
held-update_stats o tx rx s =
    ground (arith, held-conn_close (record s { stats = s.stats ++ (tx, rx) ∷ [] }))

held-write_more : (o : ConnOwner) (n : ℕ) (s : ConnRun) → held (write_more o n s) ≡ held s
unfolding write_more
held-write_more o n s =
    ground (arith, held-conn_close s, held-notify o conn_state_error (set_state conn_state_error s))

held-conn_write_cb :
    (o : ConnOwner) (st : CommStatus) (n : ℕ) (s : ConnRun) → held (conn_write_cb o st n s) ≡ held s
unfolding conn_write_cb
held-conn_write_cb o st n s =
    let t = record s { c = record (s.c) { total_written = (s.c.total_written + n) % 2 ^ 64 } } in
    ground (
      arith,
      held-notify o conn_state_error (set_state conn_state_error s),
      held-write_more o n (update_stats o n (pos 0) t),
      held-update_stats o n (pos 0) t,
    )

held-ConnStep : {o : ConnOwner} {s t : ConnRun} → ConnStep o s t → held t ≡ held s
unfolding conn_set_stats_cb client_ev_close_cb
held-ConnStep {o} {s} (writes st n) = held-conn_write_cb o st n s
held-ConnStep {o} {s} closes = held-conn_close s
held-ConnStep (sets_stats cb) = refl
held-ConnStep (closed e) = refl

pub held-ConnReach : {o : ConnOwner} {s t : ConnRun} → ConnReach o s t → held t ≡ held s
held-ConnReach here = refl
held-ConnReach (next r x) = held-ConnStep x ∙ held-ConnReach r
