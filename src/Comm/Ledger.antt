-- ===== src/Comm/Ledger.antt =====
-- The invariant of a comm object: the books of its reads and writes, the datagram queue, and the
-- place in the write buffer.
use libiapp.Base.{
  ℕ, ◌+◌, ◌≤◌, ◌≡◌, Bool, true, false, not, List, [], ◌∷◌, ◌++◌, arith, if◌then◌else◌, if_both,
  if_cases, ℤ, ◌∙◌, length, length-append,
}
use libiapp.Comm.State.{
  CommStatus, closing, UdpFrame, Call, read_done, write_done, World, comm_start_cleanup,
}
use libiapp.Comm.Api.{
  comm_mark_nonclose, comm_close, close_read, close_write, begin_read, register_read, read_if_ready,
  set_buffer, register_write, begin_write, write_if_ready, comm_read, comm_write, comm_listen,
  comm_connect, comm_udp_read, comm_udp_write_setup, comm_udp_write,
}
use libiapp.Comm.Reach.{
  ApiStep, marks, closes, reads, writes, listens, connects, udp_reads, udp_sets_up, udp_writes, Api,
  done, and_then,
}

abbrev pub is_read_done : Call → Bool
is_read_done (read_done cb s n) = true
is_read_done _ = false

abbrev pub is_write_done : Call → Bool
is_write_done (write_done cb s n) = true
is_write_done _ = false

abbrev is_closing_status : CommStatus → Bool
is_closing_status closing = true
is_closing_status _ = false

-- A callback about a read or a write, other than by FDE_COMM_CB_CLOSING.
abbrev pub is_read_answer : Call → Bool
is_read_answer (read_done cb s n) = not (is_closing_status s)
is_read_answer _ = false

abbrev pub is_write_answer : Call → Bool
is_write_answer (write_done cb s n) = not (is_closing_status s)
is_write_answer _ = false

unfoldable pub count_calls : (Call → Bool) → List Call → ℕ
count_calls f [] = 0
count_calls f (k ∷ ks) = (if f k then 1 else 0) + count_calls f ks

pub count-snoc :
    (f : Call → Bool) (ks : List Call) (k : Call)
    → count_calls f (ks ++ k ∷ []) ≡ count_calls f ks + (if f k then 1 else 0)
unfolding count_calls
count-snoc f [] k = omega arith
count-snoc f (x ∷ ks) k = omega (arith, count-snoc f ks k)

-- Each accepted read was answered by a callback, or is in progress, and none by two that are not for
-- closing; so for writes. The queue of datagrams has the length that it says, within its limit, and is empty before it is set up. The
-- offset lies within the write buffer. A cleanup is scheduled only while closing.
pub record IsConsistent (w : World) : Type 0 where
  pub read_answered :
      w.reads ≤ count_calls is_read_done w.calls + (if w.c.r.is_active then 1 else 0)
  pub read_once : count_calls is_read_answer w.calls + (if w.c.r.is_active then 1 else 0) ≤ w.reads
  pub write_answered :
      w.writes ≤ count_calls is_write_done w.calls + (if w.c.w.is_active then 1 else 0)
  pub write_once :
      count_calls is_write_answer w.calls + (if w.c.w.is_active then 1 else 0) ≤ w.writes
  pub queued : w.c.udp_w.qlen ≡ length w.c.udp_w.w_q
  pub limited : w.c.udp_w.qlen ≤ w.c.udp_w.max_qlen
  pub unused : w.c.udp_w.is_active ≡ false → w.c.udp_w.w_q ≡ []
  pub inside : w.c.w.offset ≤ w.c.w.len
  pub ordered : w.c.is_cleanup ≡ true → w.c.is_closing ≡ true

-- The parts of comm.c that touch nothing that the invariant reads.
module _ (w : World) (v : IsConsistent w) where
  pub comm_start_cleanup-IsConsistent : IsConsistent (comm_start_cleanup w)
  unfolding comm_start_cleanup
  comm_start_cleanup-IsConsistent = ground arith

  close_read-IsConsistent : IsConsistent (close_read w)
  unfolding close_read
  close_read-IsConsistent = ground arith

  close_write-IsConsistent : IsConsistent (close_write w)
  unfolding close_write
  close_write-IsConsistent = ground arith

  begin_read-IsConsistent :
      (buf len cb : ℕ) → w.c.r.is_active ≡ false → IsConsistent (begin_read w buf len cb)
  unfolding begin_read
  begin_read-IsConsistent buf len cb a = ground arith

  register_read-IsConsistent : IsConsistent (register_read w)
  unfolding register_read
  register_read-IsConsistent = ground arith

  read_if_ready-IsConsistent : IsConsistent (read_if_ready w)
  unfolding read_if_ready
  read_if_ready-IsConsistent = ground arith

  set_buffer-IsConsistent :
      (nb start len cb : ℕ) → w.c.w.is_active ≡ false → IsConsistent (set_buffer w nb start len cb)
  unfolding set_buffer
  set_buffer-IsConsistent nb start len cb a = ground arith

  register_write-IsConsistent : IsConsistent (register_write w)
  unfolding register_write
  register_write-IsConsistent = ground arith

  begin_write-IsConsistent : w.c.w.is_active ≡ false → IsConsistent (begin_write w)
  unfolding begin_write
  begin_write-IsConsistent a = ground arith

  write_if_ready-IsConsistent : IsConsistent (write_if_ready w)
  unfolding write_if_ready
  write_if_ready-IsConsistent = ground arith

  comm_udp_write-IsConsistent : (fr : UdpFrame) → IsConsistent (comm_udp_write w fr).0
  unfolding comm_udp_write
  comm_udp_write-IsConsistent fr = ground (arith, length-append w.c.udp_w.w_q (fr ∷ []))

register_write-is_active : (w : World) → (register_write w).c.w.is_active ≡ w.c.w.is_active
unfolding register_write
register_write-is_active w = ground arith

comm_read-IsConsistent :
    (w : World) → IsConsistent w → (buf len cb : ℕ) → IsConsistent (comm_read w buf len cb).0
unfolding comm_read
comm_read-IsConsistent w v buf len cb =
    if_cases (λ (r : World × ℤ). IsConsistent r.0) w.c.r.is_active (λ e. v)
      (λ e. read_if_ready-IsConsistent _ (
        register_read-IsConsistent (begin_read w buf len cb)
          (begin_read-IsConsistent w v buf len cb e)))

comm_write-IsConsistent :
    (w : World)
    → IsConsistent w
    → (nb start len cb : ℕ) → IsConsistent (comm_write w nb start len cb).0
unfolding comm_write
comm_write-IsConsistent w v nb start len cb =
    if_cases (λ (r : World × ℤ). IsConsistent r.0) w.c.w.is_active (λ e. v)
      (λ e.
        let b = set_buffer w nb start len cb in
        write_if_ready-IsConsistent _ (
          begin_write-IsConsistent (register_write b)
            (register_write-IsConsistent b (set_buffer-IsConsistent w v nb start len cb e))
            (register_write-is_active b ∙ e)))

comm_close-IsConsistent : (w : World) → IsConsistent w → IsConsistent (comm_close w)
unfolding comm_close
comm_close-IsConsistent w v =
    let begun : IsConsistent (record w { c = record (w.c) { is_closing = true } }) = ground arith in
    let closed = close_write-IsConsistent _ (close_read-IsConsistent _ begun) in
    if_both IsConsistent w.c.is_closing v
      (if_both IsConsistent _ closed (comm_start_cleanup-IsConsistent _ closed))

pub ApiStep-IsConsistent : {w u : World} → ApiStep w u → IsConsistent w → IsConsistent u
unfolding comm_mark_nonclose comm_listen comm_connect comm_udp_read comm_udp_write_setup
ApiStep-IsConsistent {w} marks v = ground arith
ApiStep-IsConsistent {w} closes v = comm_close-IsConsistent w v
ApiStep-IsConsistent {w} (reads buf len cb) v = comm_read-IsConsistent w v buf len cb
ApiStep-IsConsistent {w} (writes nb start len cb) v = comm_write-IsConsistent w v nb start len cb
ApiStep-IsConsistent {w} (listens cb) v = ground arith
ApiStep-IsConsistent {w} (connects limit sin slen cb) v = ground arith
ApiStep-IsConsistent {w} (udp_reads cb maxlen) v = ground arith
ApiStep-IsConsistent {w} (udp_sets_up cb qlen) v = ground arith
ApiStep-IsConsistent {w} (udp_writes fr) v = comm_udp_write-IsConsistent w v fr

pub Api-IsConsistent : {w u : World} → Api w u → IsConsistent w → IsConsistent u
Api-IsConsistent done v = v
Api-IsConsistent (and_then a s) v = ApiStep-IsConsistent s (Api-IsConsistent a v)
