-- ===== src/Udp/Client.antt =====
-- src/udp_clt/udp_clt.c: sending frames at a rate, and what becomes of each.
use libiapp.Base.{
  ℕ, zero, suc, ◌+◌, ◌%◌, ◌^◌, Bool, true, false, ◌&&◌, none, some, List, [], ◌∷◌, ℤ, pos, negsuc,
  ◌==◌, if◌then◌else◌, store,
}
use libiapp.Fde.Event.{Timeval}
use libiapp.Fde.Timeout.{fde_add_timeout}
use libiapp.Comm.State.{CommStatus, UdpFrame, Call, udp_write_done, World}
use libiapp.Comm.Api.{comm_udp_write}
use libiapp.Comm.Udp.{fde_comm_udp_alloc}
use libiapp.Conn.Handlers.{is_completed_status}
use libiapp.Udp.State.{UdpClt, fde_comm_udp_free, fill_letters}

-- Is the result of comm_udp_write negative?
abbrev pub is_refused : ℤ → Bool
is_refused (pos n) = false
is_refused (negsuc n) = true

-- A frame from fde_comm_udp_alloc, filled.
unfoldable pub fill_frame : UdpClt → UdpFrame → UdpClt × UdpFrame
unfolding fill_letters store
fill_frame s fr = (
  record s {
    frames = fr.frame_id ∷ s.frames;
    next_frame = suc s.next_frame;
    bufs = store s.bufs fr.frame_id (fill_letters 0 s.max_io_size (s.bufs fr.frame_id));
  },
  record fr { len = s.max_io_size },
)

-- The loop of thrclt_send_frames, with `n` of its turns left. `calloc` and `malloc` answer for the frame of an
-- address.
unfoldable pub send_frames : (calloc malloc : ℕ → Bool) → (n : ℕ) → UdpClt → UdpClt
unfolding fill_frame fde_comm_udp_free comm_udp_write fde_comm_udp_alloc
send_frames calloc malloc zero s = s
send_frames calloc malloc (suc n) s =
    elim (fde_comm_udp_alloc (calloc s.next_frame) (malloc s.next_frame) s.next_frame
      s.max_io_size) [
        | none ↦ record s { faults = suc s.faults }
        | some fr ↦
            (let (t, fs) = fill_frame s fr in
              let (w, r) = comm_udp_write t.comm_wr fs in
              let rest = send_frames calloc malloc n (record t { comm_wr = w }) in
              if is_refused r
              then record t { comm_wr = w; frames = fde_comm_udp_free fs t.frames }
              else rest)
      ]

-- thrclt_send_frames, and thrclt_ev_newconn_cb.
unfoldable pub thrclt_send_frames : (calloc malloc : ℕ → Bool) → UdpClt → UdpClt
unfolding send_frames
thrclt_send_frames calloc malloc s = send_frames calloc malloc s.connrate s

-- What thrsrv_comm_udp_write_cb does to the comm object's event loop: the next round is now.
-- gettimeofday(2) answers `now`.
abbrev pub plan_now : (ev_newconn : ℕ) → (World → Timeval) → Call → World → World
plan_now ev_newconn now k w = record w { fh = fde_add_timeout w.fh ev_newconn (now w) }

-- thrsrv_comm_udp_write_cb; `xerrno` is not looked at.
unfoldable pub thrsrv_comm_udp_write_cb :
    (World → Timeval) → UdpFrame → CommStatus → (nwritten : ℕ) → UdpClt → UdpClt
unfolding fde_comm_udp_free
thrsrv_comm_udp_write_cb now fr st nwritten s =
    let counted = record s {
      total_pkt_written = (s.total_pkt_written + 1) % 2 ^ 64;
      total_byte_written = (s.total_byte_written + nwritten) % 2 ^ 64;
    } in
    let t = if is_completed_status st && nwritten == fr.len then counted else s in
    record t {
      frames = fde_comm_udp_free fr t.frames;
      comm_wr = record (t.comm_wr) {
        fh = fde_add_timeout t.comm_wr.fh t.ev_newconn (now t.comm_wr);
      };
    }

-- The callbacks that comm.c makes. The program registers only the one above.
unfoldable pub hear : (World → Timeval) → Call → UdpClt → UdpClt
unfolding thrsrv_comm_udp_write_cb
hear now (udp_write_done cb fr st nwritten xerrno) s = thrsrv_comm_udp_write_cb now fr st nwritten s
hear now _ s = s

unfoldable pub hear_all : (World → Timeval) → List Call → UdpClt → UdpClt
unfolding hear
hear_all now [] s = s
hear_all now (k ∷ ks) s = hear_all now ks (hear now k s)

-- thrclt_ev_stat_print, with the time of the next print.
unfoldable pub thrclt_ev_stat_print : Timeval → UdpClt → UdpClt
thrclt_ev_stat_print now s = record s {
  total_pkt_written = 0;
  total_byte_written = 0;
  comm_wr = record (s.comm_wr) {
    fh = fde_add_timeout s.comm_wr.fh s.ev_stats (record now { tv_sec = now.tv_sec + 1 });
  };
}
