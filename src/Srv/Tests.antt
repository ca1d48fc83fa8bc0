-- ===== src/Srv/Tests.antt =====
-- A server of two threads, and the theorem on src/srv/srv.c at a concrete run.
use libiapp.Base.{
  List, ◌++◌, some, none, ℕ, pos, negsuc, ◌+◌, ◌≡◌, refl, true, [], ◌∷◌, arith, has, times,
}
use libiapp.Srv.Options.{atoi, default_cfg, atype_text, port_text, parse_args}
use libiapp.Srv.RoundTrip.{
  Setting, sets_num_threads, sets_posixshm, sets_port, show_setting, show_all, all_int, apply_all,
  parse_args-show_all,
}
use libiapp.Comm.State.{completed}
use libiapp.Comm.Tests.{empty_loop}
use libiapp.Conn.State.{conn_state_freeing}
use libiapp.Srv.Server.{SrvThr, Server, thrsrv_acceptfd, thrsrv_run_deferred, thrsrv_conn_update_cb}
use libiapp.Srv.Books.{kept, SrvReach, here, accepts, defers, updates, SrvReach-kept}

abbrev idle_thr : ℕ → SrvThr
idle_thr i = record {
  app_id = i;
  h = empty_loop;
  ev_stats = 0;
  ev_deferred = 1;
  conn_list = [];
  newfd_list = [];
  total_read = 0;
  total_written = 0;
  total_opened = 0;
  total_closed = 0;
  num_clients = 0;
}

abbrev two_threads : Server
two_threads = record {
  rp = idle_thr;
  num_threads = 2;
  do_fd_affinity = true;
  closed = [];
  freed = [];
  asked = [];
}

-- Descriptor 7 is accepted by thread 0 for thread 1, which sets it up and frees it; 8 stays with thread 0.
abbrev handed : Server
handed = thrsrv_acceptfd true (λ d. true) two_threads 0 completed 7 3

abbrev both : Server
both = thrsrv_acceptfd true (λ d. true) handed 0 completed 8 16

abbrev set_up : Server
set_up = thrsrv_run_deferred (λ d. true) (record { tv_sec = 10; tv_usec = 950000 }) both 1

abbrev over : Server
over = thrsrv_conn_update_cb set_up 1 7 conn_state_freeing

set_up_list : (set_up.rp 1).conn_list ≡ 7 ∷ []
unfolding thrsrv_acceptfd thrsrv_run_deferred
set_up_list = refl

over_reached : SrvReach two_threads over (8 ∷ 7 ∷ [])
unfolding thrsrv_acceptfd thrsrv_run_deferred has
over_reached =
    updates 1 7 conn_state_freeing
      (defers (λ d. true) (record { tv_sec = 10; tv_usec = 950000 }) 1
        (accepts true (λ d. true) 0 completed 8 16
          (accepts true (λ d. true) 0 completed 7 3 here (omega arith)) (omega arith))
        (omega arith))
      (omega arith) refl

SrvReach-kept_example : kept 7 over ≡ kept 7 two_threads + times 7 (8 ∷ 7 ∷ [])
SrvReach-kept_example = SrvReach-kept 7 over_reached

-- num_threads=4 port=80 atype=posixshm num_threads=16
abbrev wanted : List Setting
wanted = sets_num_threads 4 ∷ sets_port 80 ∷ sets_posixshm ∷ sets_num_threads 16 ∷ []

wanted_first :
    show_setting (sets_num_threads 16)
    ≡ 110 ∷ 117 ∷ 109 ∷ 95 ∷ 116 ∷ 104 ∷ 114 ∷ 101 ∷ 97 ∷ 100 ∷ 115 ∷ 61 ∷ 49 ∷ 54 ∷ []
unfolding show_setting
wanted_first = refl

parse_args-show_all_example :
    parse_args (λ j. true) 1 default_cfg (show_all wanted) ≡ some (apply_all default_cfg wanted)
unfolding all_int
parse_args-show_all_example = parse_args-show_all 1 default_cfg wanted refl

-- io_size=4294967297 is one, and io_size=2147483648 is the least int.
too_large :
    (atoi (52 ∷ 50 ∷ 57 ∷ 52 ∷ 57 ∷ 54 ∷ 55 ∷ 50 ∷ 57 ∷ 55 ∷ []) ≡ pos 1)
    × (atoi (50 ∷ 49 ∷ 52 ∷ 55 ∷ 52 ∷ 56 ∷ 51 ∷ 54 ∷ 52 ∷ 56 ∷ []) ≡ negsuc 2147483647)
unfolding atoi
too_large = (refl, refl)

-- port without a value, and a type that there is not.
port_alone : parse_args (λ j. true) 1 default_cfg (port_text ∷ []) ≡ none
unfolding parse_args
port_alone = refl

atype_port : parse_args (λ j. true) 1 default_cfg ((atype_text ++ 61 ∷ port_text) ∷ []) ≡ none
unfolding parse_args
atype_port = refl
