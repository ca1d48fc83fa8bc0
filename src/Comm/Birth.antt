-- ===== src/Comm/Birth.antt =====
-- An object of lib/libiapp/comm.c from comm_create on.
use libiapp.Base.{ℕ, ◌≡◌, sym, Bool, true, false, Option, some, List, [], ℤ, arith}
use mathlib.Core.Path.{subst}
use libiapp.Fde.Event.{FdeHead}
use libiapp.Comm.State.{FdeComm, Call, World}
use libiapp.Comm.Create.{new_comm, comm_create}
use libiapp.Comm.Created.{comm_create_makes}
use libiapp.Comm.Reach.{IsOwner, CommReach}
use libiapp.Comm.Ledger.{IsConsistent, count_calls}
use libiapp.Comm.Datagrams.{CommReach-IsConsistent}

-- The object `c` on the loop `g`, before anything has happened to it.
abbrev pub begin : FdeHead → FdeComm → World
begin g c = record {
  fh = g;
  c = c;
  calls = [];
  reads = 0;
  writes = 0;
  fd_open = true;
  freed = false;
}

new_comm-IsConsistent :
    (g : FdeHead) (fd : ℤ) (close_cb : Option ℕ) (ids : List ℕ)
    → IsConsistent (begin g (new_comm fd close_cb ids))
unfolding new_comm count_calls
new_comm-IsConsistent g fd close_cb ids = ground arith

-- Whatever happens to an object that comm_create returned, its books stay right: the reads that
-- were accepted since are at most the callbacks about a read and the one in progress, and at least those
-- callbacks about a read that are not for closing and the one in progress, and so for writes; the datagram
-- queue has the length that it says, stays within its limit and is empty before it is set up, the
-- write offset stays within the buffer, and a cleanup is scheduled only while closing; provided
-- that write(2) writes no more than it is asked to.
pub comm_create-IsConsistent :
    (owner : Call → World → World)
    → IsOwner owner
    → (calloc : ℕ → Bool) (note_eof : ℕ) (cb : ℕ → ℕ) (h : FdeHead) (fd : ℤ) (close_cb : Option ℕ)
      (c : FdeComm) (u : World)
    → (comm_create calloc note_eof cb h fd close_cb).1 ≡ some c
    → CommReach owner (begin (comm_create calloc note_eof cb h fd close_cb).0 c) u
    → IsConsistent u
comm_create-IsConsistent owner o calloc note_eof cb h fd close_cb c u e r =
    let g = (comm_create calloc note_eof cb h fd close_cb).0 in
    let (ids, made, _, _) = comm_create_makes calloc note_eof cb h fd close_cb c e in
    CommReach-IsConsistent owner o r
      (subst (λ k. IsConsistent (begin g k)) (sym made) (new_comm-IsConsistent g fd close_cb ids))
