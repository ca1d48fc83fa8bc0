-- ===== src/Comm/Tests.antt =====
-- A comm object at work: the theorems on lib/libiapp/comm.c at concrete states.
use libiapp.Base.{
  ◌==◌, if◌then◌else◌, ℕ, ◌≡◌, refl, true, false, none, some, List, length, ltb, [], ◌∷◌, arith,
  pos,
}
use libiapp.Comm.Udp.{comm_cb_udp_write}
use libiapp.Comm.State.{
  read_done, UdpFrame, udp_write_done, closing, comm_is_close_ready, Call, World, SysResult, got,
}
use libiapp.Comm.Api.{
  comm_close, close_read, close_write, comm_udp_write, comm_udp_write_setup, comm_read, comm_write,
}
use libiapp.Fde.Loop.{here}
use libiapp.Fde.CallbackPass.{fde_ctx_new-IsReady}
use libiapp.Fde.Register.{fde_ctx_new, fde_create, blank}
use libiapp.Comm.Create.{new_comm, create_events, keep_event, conclude, specs, comm_create}
use libiapp.Comm.Created.{Grown, comm_create_makes}
use libiapp.Comm.Undone.{IsUndone, comm_create_fails}
use libiapp.Comm.Reach.{
  CommReach, reads, writes, done, IsOwner, IsWrite, calls, write_ready, write_event, here, next,
}
use libiapp.Comm.Birth.{begin, comm_create-IsConsistent}
use libiapp.Fde.Event.{FdeHead}
use libiapp.Comm.Handlers.{comm_cb_read, comm_cb_read_cb, comm_cb_write, comm_cb_write_cb}
use libiapp.Comm.Ledger.{IsConsistent, is_read_done, count_calls}
use libiapp.Comm.Closing.{comm_cb_udp_write_closing}
use libiapp.Comm.Datagrams.{CommReach-IsConsistent}

-- A loop on which none of the object's events is registered.
abbrev loop : FdeHead
loop = record {
  f_head = [];
  f_cb_head = [];
  f_t_head = [];
  pending = [];
  submitted = [];
  f_cb_genid = 0;
  fdes = λ i. record blank { allocated = true };
  next = 10;
}

-- A comm object on descriptor 5, as it is created.
abbrev pub fresh : World
fresh = record {
  fh = loop;
  c = record {
    fd = pos 5;
    do_close = true;
    ev_read = 0;
    ev_read_cb = 1;
    ev_write = 2;
    ev_write_cb = 3;
    ev_cleanup = 4;
    ev_accept = 5;
    ev_connect = 6;
    ev_connect_start = 7;
    ev_udp_read = 8;
    ev_udp_write = 9;
    is_closing = false;
    is_cleanup = false;
    r = record { is_active = false; is_ready = false; is_read = false; buf = 0; len = 0; cb = 0 };
    w = record {
      is_active = false;
      is_ready = false;
      is_write = false;
      nb = 0;
      nb_start_offset = 0;
      offset = 0;
      len = 0;
      cb = 0;
    };
    close_cb = none;
    a = record { is_active = false; cb = 0 };
    co = record { is_active = false; cb = 0; sin = 0; slen = 0 };
    udp_r = record { maxlen = 0; is_active = false; cb = 0 };
    udp_w = record {
      is_active = false;
      is_primed = false;
      max_qlen = 0;
      qlen = 0;
      w_q = [];
      cb = 0;
    };
  };
  calls = [];
  reads = 0;
  writes = 0;
  fd_open = true;
  freed = false;
}

-- An owner whose callbacks call nothing.
abbrev idle : Call → World → World
idle k w = w

idle-IsOwner : IsOwner idle
idle-IsOwner k w = done

-- A socket that takes all that it is given.
abbrev pub takes_all : ℕ → ℕ → ℕ → SysResult
takes_all nb start len = got len

-- A write of 100 bytes in progress, the socket ready.
abbrev pub writing : World
writing = comm_cb_write (comm_write fresh 1 0 100 8).0

takes_all-IsWrite : IsWrite takes_all
takes_all-IsWrite nb start len n e = ground arith

-- One run of the handler, for any owner.
pub once_written :
    (owner : Call → World → World)
    → CommReach owner writing (comm_cb_write_cb owner takes_all writing)
unfolding comm_write comm_cb_write
once_written owner = next CommReach.here (write_event takes_all takes_all-IsWrite)

-- Two runs: the second writes no bytes, and reports the end of the stream.
pub twice_written :
    (owner : Call → World → World)
    → CommReach owner writing
        (comm_cb_write_cb owner takes_all (comm_cb_write_cb owner takes_all writing))
unfolding comm_write comm_cb_write
twice_written owner = next (once_written owner) (write_event takes_all takes_all-IsWrite)

-- An owner that reads once more when it is told that the object closes, and its first read.
abbrev rereads : Call → World → World
rereads (read_done cb closing n) w = if w.reads == 1 then (comm_read w 1 100 8).0 else w
rereads _ w = w

-- The socket has 100 bytes. Both reads are answered for closing or with the bytes, and a run of ev_read_cb,
-- which the owner's comm_read queued, reports the close a third time.
abbrev reread : World
reread =
    comm_cb_read_cb rereads (λ b len. got len)
      (comm_cb_read_cb rereads (λ b len. got len)
        (comm_close (comm_cb_read (comm_read fresh 1 100 8).0)))

reread_calls : (count_calls is_read_done reread.calls ≡ 3) × (reread.reads ≡ 2)
unfolding comm_read comm_cb_read comm_cb_read_cb comm_close count_calls close_write close_read
reread_calls = (refl, refl)

fresh-IsConsistent : IsConsistent fresh
unfolding count_calls
fresh-IsConsistent = ground arith

CommReach-IsConsistent_example : IsConsistent (comm_cb_write_cb idle takes_all writing)
unfolding comm_write comm_cb_write
CommReach-IsConsistent_example =
    CommReach-IsConsistent idle idle-IsOwner
      (next (next (next CommReach.here (calls (writes 1 0 100 8))) write_ready)
        (write_event takes_all takes_all-IsWrite))
      fresh-IsConsistent

-- Two datagrams are queued on a closing object.
abbrev frame : ℕ → UdpFrame
frame n = record { frame_id = n; size = 512; len = 100 }

abbrev drowning : World
drowning =
    comm_close
      (comm_udp_write (comm_udp_write (comm_udp_write_setup fresh 9 4).0 (frame 1)).0 (frame 2)).0

comm_cb_udp_write_closing_example :
    (u : World) × (comm_cb_udp_write idle (λ n. got 100) 3 drowning ≡ some u)
    × (u.c.udp_w.w_q ≡ [])
    × (u.c.udp_w.is_active ≡ false)
    × (u.calls
        ≡ udp_write_done 9 (frame 1) closing 0 0 ∷ udp_write_done 9 (frame 2) closing 0 0 ∷ [])
unfolding comm_close close_read close_write comm_udp_write comm_udp_write_setup comm_is_close_ready
comm_cb_udp_write_closing_example =
    comm_cb_udp_write_closing idle idle-IsOwner (λ n. got 100) 3 drowning refl refl (omega arith)

abbrev pub empty_loop : FdeHead
empty_loop = record loop { fdes = λ i. blank; next = 0 }

-- The fourth allocation of a comm_create fails.
comm_create_fails_example :
    IsUndone empty_loop (comm_create (λ n. ltb n 4) 0 (λ n. n) empty_loop (pos 5) none).0
unfolding fde_ctx_new fde_create create_events keep_event conclude specs comm_create
comm_create_fails_example =
    comm_create_fails (λ n. ltb n 4) 0 (λ n. n) empty_loop (pos 5) none
      (fde_ctx_new-IsReady refl here).sound refl

abbrev all_ids : List ℕ
all_ids = 0 ∷ 1 ∷ 2 ∷ 3 ∷ 4 ∷ 5 ∷ 6 ∷ 7 ∷ 8 ∷ 9 ∷ []

created :
    (comm_create (λ n. true) 0 (λ n. n) empty_loop (pos 5) none).1
    ≡ some (new_comm (pos 5) none all_ids)
unfolding fde_create create_events keep_event conclude specs comm_create
created = refl

comm_create_makes_example :
    (ids : List ℕ) × (new_comm (pos 5) none all_ids ≡ new_comm (pos 5) none ids)
    × (length ids ≡ 10)
    × Grown empty_loop (comm_create (λ n. true) 0 (λ n. n) empty_loop (pos 5) none).0 ids
comm_create_makes_example =
    comm_create_makes (λ n. true) 0 (λ n. n) empty_loop (pos 5) none (new_comm (pos 5) none all_ids)
      created

-- A read of 100 bytes on a new object.
abbrev newborn : World
newborn =
    begin (comm_create (λ n. true) 0 (λ n. n) empty_loop (pos 5) none).0
      (new_comm (pos 5) none all_ids)

comm_create-IsConsistent_example : IsConsistent (comm_read newborn 1 100 8).0
comm_create-IsConsistent_example =
    comm_create-IsConsistent idle idle-IsOwner (λ n. true) 0 (λ n. n) empty_loop (pos 5) none
      (new_comm (pos 5) none all_ids) (comm_read newborn 1 100 8).0 created
      (next CommReach.here (calls (reads 1 100 8)))

-- A read and a write in progress; the owner calls nothing.
abbrev busy : World
busy = (comm_read writing 2 50 6).0

busy_told :
    length
      (comm_cb_write_cb idle takes_all
        (comm_cb_read_cb idle (λ b len. got len) (comm_close busy))).calls
    ≡ 2
unfolding comm_read comm_write comm_cb_write comm_close comm_cb_read_cb comm_cb_write_cb close_read
    close_write
busy_told = refl
