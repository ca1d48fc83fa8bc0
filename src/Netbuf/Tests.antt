-- ===== src/Netbuf/Tests.antt =====
-- The theorems on lib/libiapp/netbuf.c at concrete inputs.
use libiapp.Base.{ℕ, ◌≡◌, refl, true, false, Option, some, [], arith, has}
use libiapp.Shm.State.{Slab, Allocation, Ran, returned}
use libiapp.Shm.Alloc.{SlabCalls, shm_alloc_init}
use libiapp.Shm.Sane.{IsSane}
use libiapp.Shm.Slabs.{shm_alloc_init-IsSane}
use libiapp.Shm.Steps.{IsSmall}
use libiapp.Netbuf.State.{nb_alloc_none, nb_alloc_posixshm, NetHeap}
use libiapp.Netbuf.Alloc.{iapp_netbuf_alloc}
use libiapp.Netbuf.Lifetime.{Outcome, iapp_netbuf_free-iapp_netbuf_alloc}

abbrev calls : SlabCalls
calls = record {
  calloc = true;
  shm_open = some 3;
  ftruncate = true;
  mmap = some 8192;
  mlock = true;
}

abbrev slabs : ℕ → Slab
slabs k = record {
  shm_fd = 0;
  shm_size = 0;
  shm_m = 0;
  shm_curofs = 0;
  free_list = [];
  free_list_cnt = 0;
}

abbrev allocs : ℕ → Allocation
allocs a = record {
  sha_slab = 0;
  sha_fd = 0;
  sha_offset = 0;
  sha_len = 0;
  sha_ptr = 0;
  sha_isactive = false;
}

abbrev pub heap : NetHeap
heap = record {
  shm = shm_alloc_init calls slabs allocs 500 100 true;
  live = [];
  next_block = 0;
  bufs = λ n. record { sa = 0; bufptr = 0; buf_size = 0; nb_type = nb_alloc_none };
}

pub heap-IsSmall : IsSmall heap.shm 40
unfolding shm_alloc_init has
heap-IsSmall k h = ground arith

pub heap-IsSane : IsSane heap.shm
heap-IsSane = shm_alloc_init-IsSane calls slabs allocs 500 100 true

iapp_netbuf_free-iapp_netbuf_alloc_example :
    (r : NetHeap × Option ℕ) × (iapp_netbuf_alloc true true true heap nb_alloc_posixshm 40
      ≡ returned r)
    × Outcome heap r
unfolding shm_alloc_init
iapp_netbuf_free-iapp_netbuf_alloc_example =
    iapp_netbuf_free-iapp_netbuf_alloc true true true heap nb_alloc_posixshm 40 heap-IsSane refl
      heap-IsSmall

abbrev grown : Ran (NetHeap × Option ℕ) → NetHeap
grown (returned (u, r)) = u
grown _ = heap
