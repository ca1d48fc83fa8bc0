-- ===== src/Thr/Tests.antt =====
-- A group of threads whose second thread fails: the theorem on lib/libiapp/thr.c at a concrete heap.
use libiapp.Base.{ℕ, true, not, [], ◌==◌}
use libiapp.Comm.Tests.{empty_loop}
use libiapp.Thr.State.{ThrHeap, ThrCalls}
use libiapp.Thr.Group.{libiapp_thr_group_create}
use libiapp.Thr.Created.{Group, loops_made, libiapp_thr_group_create-Group}

abbrev nothing : ThrHeap
nothing = record { live = []; next_block = 0; heads = []; next_head = 0; loops = λ i. empty_loop }

-- The wakeup event of the second thread fails.
abbrev second_fails : ℕ → ThrCalls
second_fails i = record {
  calloc = true;
  calloc_head = true;
  kqueue = true;
  calloc_event = not (i == 1);
}

libiapp_thr_group_create-Group_example :
    Group nothing 3 2 (libiapp_thr_group_create true true second_fails 1 7 nothing 3)
unfolding loops_made
libiapp_thr_group_create-Group_example =
    libiapp_thr_group_create-Group true true second_fails 1 7 nothing 3
