-- ===== src/Udp/State.antt =====
-- The data of src/udp_clt/udp_clt.c and src/udp_srv/udp_srv.c. The comm object of a thread stands with its event
-- loop in `comm_wr` and `comm_recvfrom`. The addresses of datagrams are left out.
use libiapp.Base.{ℕ, zero, suc, ◌+◌, ◌%◌, List, remove, store}
use libiapp.Comm.State.{UdpFrame, World}

-- A thread of the client. The limits are ints that are not negative. `frames` are the frames that are allocated, each with the
-- bytes `bufs`; `faults` counts the uses of a NULL pointer, behind the first of which the program is not running any more.
pub record UdpClt : Type 0 where
  pub app_id : ℕ
  pub max_io_size : ℕ
  pub max_qdepth : ℕ
  pub connrate : ℕ
  pub ev_stats : ℕ
  pub ev_newconn : ℕ
  pub comm_wr : World
  pub total_pkt_written : ℕ
  pub total_byte_written : ℕ
  pub frames : List ℕ
  pub next_frame : ℕ
  pub bufs : ℕ → ℕ → ℕ
  pub faults : ℕ

-- A thread of the server, with the frames that are allocated.
pub record UdpThr : Type 0 where
  pub comm_recvfrom : World
  pub frames : List ℕ

-- fde_comm_udp_free, which frees the buffer with the frame.
unfoldable pub fde_comm_udp_free : UdpFrame → List ℕ → List ℕ
fde_comm_udp_free fr frames = remove fr.frame_id frames

-- The loop that writes letters, from the i-th byte on.
unfoldable pub fill_letters : (i n : ℕ) → (ℕ → ℕ) → ℕ → ℕ
unfolding store
fill_letters i zero m = m
fill_letters i (suc n) m = fill_letters (suc i) n (store m i (65 + i % 26))
