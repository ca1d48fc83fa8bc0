-- ===== src/Udp/Server.antt =====
-- src/udp_srv/udp_srv.c: receiving frames.
use libiapp.Base.{ℕ, Option, none, some, List, if◌then◌else◌}
use libiapp.Comm.State.{CommStatus, UdpFrame, World}
use libiapp.Comm.Api.{comm_mark_nonclose, comm_udp_read}
use libiapp.Conn.Handlers.{is_completed_status}
use libiapp.Udp.State.{UdpThr, fde_comm_udp_free}

abbrev pub free_frame : Option UdpFrame → List ℕ → List ℕ
free_frame none frames = frames
free_frame (some fr) frames = fde_comm_udp_free fr frames

-- conn_recvmsg. The two returns for an error differ only in a message.
unfoldable pub conn_recvmsg : Option UdpFrame → CommStatus → UdpThr → UdpThr
unfolding fde_comm_udp_free
conn_recvmsg fr st r =
    if is_completed_status st then record r { frames = free_frame fr r.frames } else r

-- thrsrv_new up to its endless loop, for a comm object that was made: it reads frames of 8192 bytes.
unfoldable pub listen_frames : (cb : ℕ) → World → World
unfolding comm_mark_nonclose comm_udp_read
listen_frames cb w = (comm_udp_read (comm_mark_nonclose w) cb 8192).0
