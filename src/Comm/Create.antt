-- ===== src/Comm/Create.antt =====
-- comm_create of lib/libiapp/comm.c.
use libiapp.Base.{ℕ, zero, suc, Bool, true, false, Option, none, some, List, [], ◌∷◌, ℤ, minus_one}
use libiapp.Fde.Event.{FdeHead, FdeType, read, write, callback}
use libiapp.Fde.Register.{fde_create, fde_free}
use libiapp.Comm.State.{FdeComm}

-- The arguments of one fde_create.
pub record EventSpec : Type 0 where
  pub fd : ℤ
  pub f_type : FdeType
  pub persist : Bool
  pub cb : ℕ

-- The ten events of an object on the descriptor `fd`, in the order in which they are created; `cb n`
-- is the handler of the n-th.
unfoldable pub specs : ℤ → (cb : ℕ → ℕ) → List EventSpec
specs fd cb =
    record { fd = fd; f_type = read; persist = true; cb = cb 0 }
    ∷ record { fd = minus_one; f_type = callback; persist = false; cb = cb 1 }
    ∷ record { fd = fd; f_type = write; persist = true; cb = cb 2 }
    ∷ record { fd = minus_one; f_type = callback; persist = false; cb = cb 3 }
    ∷ record { fd = minus_one; f_type = callback; persist = false; cb = cb 4 }
    ∷ record { fd = fd; f_type = read; persist = false; cb = cb 5 }
    ∷ record { fd = fd; f_type = write; persist = false; cb = cb 6 }
    ∷ record { fd = minus_one; f_type = callback; persist = false; cb = cb 7 }
    ∷ record { fd = fd; f_type = read; persist = false; cb = cb 8 }
    ∷ record { fd = fd; f_type = write; persist = false; cb = cb 9 }
    ∷ []

-- What a fde_create adds to the events that are made after it.
unfoldable pub keep_event : FdeHead × Option ℕ → FdeHead × List ℕ × Bool → FdeHead × List ℕ × Bool
keep_event (k, none) rest = (k, [], false)
keep_event (k, some i) (g, ids, ok) = (g, i ∷ ids, ok)

-- The fde_create calls up to the first that fails: the loop, the events made, and whether all were.
-- `calloc n` says whether the n-th allocation succeeds.
unfoldable pub create_events :
    (calloc : ℕ → Bool) (note_eof n : ℕ) → FdeHead → List EventSpec → FdeHead × List ℕ × Bool
unfolding keep_event
create_events calloc note_eof n h [] = (h, [], true)
create_events calloc note_eof n h (s ∷ rest) =
    let made = fde_create (calloc n) note_eof h s.fd s.f_type s.persist s.cb in
    keep_event made (create_events calloc note_eof (suc n) made.0 rest)

-- The end of comm_create on a failure: the events that were made go again.
unfoldable pub free_all : FdeHead → List ℕ → FdeHead
free_all h [] = h
free_all h (i ∷ rest) = free_all (fde_free h i) rest

-- The n-th of the events.
unfoldable pub event : ℕ → List ℕ → ℕ
event n [] = 0
event zero (i ∷ rest) = i
event (suc n) (i ∷ rest) = event n rest

-- The object that comm_create fills in.
unfoldable pub new_comm : ℤ → Option ℕ → List ℕ → FdeComm
unfolding event
new_comm fd close_cb ids = record {
  fd = fd;
  do_close = true;
  ev_read = event 0 ids;
  ev_read_cb = event 1 ids;
  ev_write = event 2 ids;
  ev_write_cb = event 3 ids;
  ev_cleanup = event 4 ids;
  ev_accept = event 5 ids;
  ev_connect = event 6 ids;
  ev_connect_start = event 7 ids;
  ev_udp_read = event 8 ids;
  ev_udp_write = event 9 ids;
  is_closing = false;
  is_cleanup = false;
  r = record { is_active = false; is_ready = false; is_read = false; buf = 0; len = 0; cb = 0 };
  w = record {
    is_active = false;
    is_ready = false;
    is_write = false;
    nb = 0;
    nb_start_offset = 0;
    offset = 0;
    len = 0;
    cb = 0;
  };
  close_cb = close_cb;
  a = record { is_active = false; cb = 0 };
  co = record { is_active = false; cb = 0; sin = 0; slen = 0 };
  udp_r = record { maxlen = 0; is_active = false; cb = 0 };
  udp_w = record { is_active = false; is_primed = false; max_qlen = 0; qlen = 0; w_q = []; cb = 0 };
}

-- How comm_create ends, by whether the object was allocated and by what its events came to.
unfoldable pub conclude :
    Bool → FdeHead → ℤ → Option ℕ → FdeHead × List ℕ × Bool → FdeHead × Option FdeComm
unfolding free_all new_comm
conclude false h fd close_cb events = (h, none)
conclude true h fd close_cb (g, ids, true) = (g, some (new_comm fd close_cb ids))
conclude true h fd close_cb (g, ids, false) = (free_all g ids, none)

-- comm_create; the allocation numbered 0 is that of the object.
unfoldable pub comm_create :
    (calloc : ℕ → Bool) (note_eof : ℕ) (cb : ℕ → ℕ)
    → FdeHead
    → ℤ
    → Option ℕ
    → FdeHead × Option FdeComm
unfolding create_events conclude specs
comm_create calloc note_eof cb h fd close_cb =
    conclude (calloc 0) h fd close_cb (create_events calloc note_eof 1 h (specs fd cb))
