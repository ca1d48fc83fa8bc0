-- ===== src/Udp/Tests.antt =====
-- A client of src/udp_clt/udp_clt.c whose queue takes two frames, and the theorems at a concrete run.
use libiapp.Base.{
  ℕ, ◌≡◌, refl, remove, ◌==◌, Option, none, some, [], ◌∷◌, List, arith, times, if◌then◌else◌, true,
}
use libiapp.Fde.Event.{Timeval}
use libiapp.Comm.State.{World, Call, SysResult, got, would_block, udp_write_done, completed}
use libiapp.Comm.Api.{comm_udp_write_setup}
use libiapp.Comm.Udp.{comm_cb_udp_write}
use libiapp.Comm.Tests.{fresh}
use libiapp.Udp.State.{UdpClt}
use libiapp.Udp.Client.{thrclt_send_frames, plan_now, hear_all}
use libiapp.Udp.Flow.{queue_ids}
use libiapp.Udp.Books.{IsFramed, UdpReach, here, ticks, writes, UdpReach-IsFramed}
use libiapp.Udp.Rate.{Sent, thrclt_send_frames-Sent}

abbrev sender : UdpClt
sender = record {
  app_id = 0;
  max_io_size = 2;
  max_qdepth = 2;
  connrate = 3;
  ev_stats = 8;
  ev_newconn = 9;
  comm_wr = (comm_udp_write_setup fresh 30 2).0;
  total_pkt_written = 0;
  total_byte_written = 0;
  frames = [];
  next_frame = 0;
  bufs = λ f i. 0;
  faults = 0;
}

thrclt_send_frames-Sent_example : Sent 3 sender (thrclt_send_frames (λ f. true) (λ f. true) sender)
unfolding comm_udp_write_setup
thrclt_send_frames-Sent_example =
    thrclt_send_frames-Sent (λ f. true) (λ f. true) sender (λ f. refl) (λ f. refl)
      (refl, refl, omega arith)

-- Two frames are queued, and a third is refused; then the first is sent.
abbrev queued : UdpClt
queued = thrclt_send_frames (λ f. true) (λ f. true) sender

queued_frames : queued.frames ≡ 1 ∷ 0 ∷ []
unfolding thrclt_send_frames comm_udp_write_setup remove
queued_frames = refl

abbrev sendto : ℕ → SysResult
sendto n = if n == 0 then got 2 else would_block 35

abbrev noon : World → Timeval
noon w = record { tv_sec = 10; tv_usec = 0 }

abbrev of_some : Option World → World
of_some none = fresh
of_some (some w) = w

abbrev written : World
written = of_some (comm_cb_udp_write (plan_now 9 noon) sendto 5 queued.comm_wr)

abbrev heard : List Call
heard = udp_write_done 30 (record { frame_id = 0; size = 2; len = 2 }) completed 2 0 ∷ []

abbrev one_left : UdpClt
one_left = record (hear_all noon heard queued) { comm_wr = written }

one_left_reached : UdpReach sender one_left
unfolding thrclt_send_frames comm_udp_write_setup remove comm_cb_udp_write
one_left_reached = writes noon sendto 5 heard (ticks (λ f. true) (λ f. true) here) refl refl

sender-IsFramed : IsFramed (λ d. 0) sender
unfolding times queue_ids comm_udp_write_setup
sender-IsFramed d = refl

UdpReach-IsFramed_example : IsFramed (λ d. 0) one_left
UdpReach-IsFramed_example = UdpReach-IsFramed (λ d. 0) one_left_reached sender-IsFramed
