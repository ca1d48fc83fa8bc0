-- ===== src/Shm/Alloc.antt =====
-- The operations of lib/libiapp/shm_alloc.c. `size_t` has 64 bits, and sums wrap.
use libiapp.Base.{
  ℕ, suc, ◌+◌, ◌-◌, ◌%◌, ◌^◌, Bool, true, false, Option, none, some, List, [], ◌∷◌, ◌++◌, ltb, ◌==◌,
  if◌then◌else◌, remove, store,
}
use libiapp.Shm.State.{
  Slab, Allocation, ShmState, Ran, returned, aborts, set_slab, set_alloc, lock, unlock,
}

-- What the system answers while a slab is made. `none` of mmap is MAP_FAILED.
pub record SlabCalls : Type 0 where
  pub calloc : Bool
  pub shm_open : Option ℕ
  pub ftruncate : Bool
  pub mmap : Option ℕ
  pub mlock : Bool

-- The `cleanup` of shm_alloc_new_slab: what was mapped and opened is given back. munmap(2) of MAP_FAILED, which
-- is not NULL and so is called, fails and unmaps nothing.
unfoldable pub unmap : ShmState → Option ℕ → ShmState
unmap s none = s
unmap s (some m) = record s { maps = remove m s.maps }

unfoldable pub close_fd : ShmState → ℕ → ShmState
close_fd s fd = record s { fds = remove fd s.fds }

-- The end of shm_alloc_new_slab: the slab goes on the list.
unfoldable pub add_slab : ShmState → (fd m size : ℕ) → ShmState
unfolding store
add_slab s fd m size =
    record (set_slab s s.next_slab (record {
      shm_fd = fd;
      shm_size = size;
      shm_m = m;
      shm_curofs = 0;
      free_list = [];
      free_list_cnt = 0;
    })) { slab_list = s.slab_list ++ s.next_slab ∷ []; next_slab = suc s.next_slab }

-- shm_alloc_new_slab from its mmap on.
unfoldable pub map_slab : SlabCalls → ShmState → (fd size : ℕ) → Bool → ShmState
unfolding unmap close_fd add_slab
map_slab sys s fd size do_mlock = elim sys.mmap [
  | none ↦ close_fd (unmap s none) fd
  | some m ↦
      let mapped = record s { maps = m ∷ s.maps } in
      if do_mlock
      then (if sys.mlock then add_slab mapped fd m size else close_fd (unmap mapped (some m)) fd)
      else add_slab mapped fd m size
]

-- shm_alloc_new_slab. It returns NULL in every case: on success it says `return (0)`.
unfoldable pub shm_alloc_new_slab : SlabCalls → ShmState → (size : ℕ) → Bool → ShmState × Option ℕ
unfolding map_slab close_fd
shm_alloc_new_slab sys s size do_mlock =
    if sys.calloc
    then (
      elim sys.shm_open [
        | none ↦ s
        | some fd ↦
            let opened = record s { fds = fd ∷ s.fds } in
            if sys.ftruncate then map_slab sys opened fd size do_mlock else close_fd opened fd
      ],
      none,
    )
    else (s, none)

-- shm_alloc_init, on memory of its own.
unfoldable pub shm_alloc_init :
    SlabCalls → (ℕ → Slab) → (ℕ → Allocation) → (max_size slab_size : ℕ) → Bool → ShmState
unfolding shm_alloc_new_slab
shm_alloc_init sys slabs allocs max_size slab_size do_mlock =
    unlock
      (shm_alloc_new_slab sys
        (record {
          slab_list = [];
          max_size = max_size;
          slab_size = slab_size;
          do_mlock = do_mlock;
          locked = true;
          slabs = slabs;
          next_slab = 0;
          allocs = allocs;
          next_alloc = 0;
          fds = [];
          maps = [];
        })
        slab_size do_mlock).0

-- The allocation is marked inactive and goes on the free list of its slab.
unfoldable pub put_free : ShmState → ℕ → ShmState
unfolding store
put_free s a =
    let sa = s.allocs a in
    let k = sa.sha_slab in
    let sh = s.slabs k in
    set_slab (set_alloc s a (record sa { sha_isactive = false })) k
      (record sh { free_list = a ∷ sh.free_list; free_list_cnt = sh.free_list_cnt + 1 })

-- shm_alloc_add_freelist. An allocation that is not active fails the assertion.
unfoldable pub shm_alloc_add_freelist : ShmState → ℕ → Ran ShmState
unfolding put_free
shm_alloc_add_freelist s a =
    if (s.allocs a).sha_isactive then lock s (λ u. returned (unlock (put_free u a))) else aborts

-- The inner loop of shm_alloc_lookup_freelist.
unfoldable pub first_of_size : (ℕ → Allocation) → (size : ℕ) → List ℕ → Option ℕ
first_of_size m size [] = none
first_of_size m size (a ∷ rest) =
    if (m a).sha_len == size then some a else first_of_size m size rest

-- A find in a later slab replaces an earlier one.
unfoldable pub newest : Option ℕ → Option ℕ → Option ℕ
newest found none = found
newest found (some a) = some a

-- The outer loop: it runs through all slabs, so the last slab that has a fit wins.
unfoldable pub find_free : ShmState → (size : ℕ) → List ℕ → Option ℕ → Option ℕ
unfolding first_of_size newest
find_free s size [] found = found
find_free s size (k ∷ rest) found =
    find_free s size rest (newest found (first_of_size s.allocs size (s.slabs k).free_list))

-- The end of shm_alloc_lookup_freelist: the allocation comes off its free list.
unfoldable pub take_free : ShmState → ℕ → ShmState
unfolding store
take_free s a =
    let sa = s.allocs a in
    let k = sa.sha_slab in
    let sh = s.slabs k in
    set_alloc
      (set_slab s k
        (record sh { free_list = remove a sh.free_list; free_list_cnt = sh.free_list_cnt - 1 }))
      a (record sa { sha_isactive = true })

-- shm_alloc_lookup_freelist.
unfoldable pub shm_alloc_lookup_freelist : ShmState → (size : ℕ) → ShmState × Option ℕ
unfolding find_free take_free
shm_alloc_lookup_freelist s size = elim (find_free s size s.slab_list none) [
  | none ↦ (s, none)
  | some a ↦ (take_free s a, some a)
]

-- `shm_curofs + size > shm_size`.
unfoldable pub is_full : Slab → (size : ℕ) → Bool
is_full sh size = ltb sh.shm_size ((sh.shm_curofs + size) % 2 ^ 64)

-- The walk of shm_alloc_alloc: the first slab with room.
unfoldable pub first_fit : (ℕ → Slab) → (size : ℕ) → List ℕ → Option ℕ
unfolding is_full
first_fit m size [] = none
first_fit m size (k ∷ rest) = if is_full (m k) size then first_fit m size rest else some k

-- A new allocation from the slab at `k`.
unfoldable pub carve : ShmState → (k size : ℕ) → ShmState
unfolding store
carve s k size =
    let sh = s.slabs k in
    let v = set_alloc s s.next_alloc (record {
      sha_slab = k;
      sha_fd = sh.shm_fd;
      sha_offset = sh.shm_curofs;
      sha_len = size;
      sha_ptr = sh.shm_m + sh.shm_curofs;
      sha_isactive = true;
    }) in
    record (set_slab v k (record sh { shm_curofs = (sh.shm_curofs + size) % 2 ^ 64 })) {
      next_alloc = suc s.next_alloc;
    }

-- shm_alloc_alloc where nothing on a free list fits.
unfoldable pub alloc_new : (malloc : Bool) → ShmState → (size : ℕ) → ShmState × Option ℕ
unfolding first_fit carve
alloc_new malloc s size = elim (first_fit s.slabs size s.slab_list) [
  | none ↦ (unlock s, none)
  | some k ↦ if malloc then (unlock (carve s k size), some s.next_alloc) else (s, none)
]

-- shm_alloc_alloc behind its look at the free lists. The path on which malloc(3) fails returns with
-- the mutex held.
unfoldable pub or_new : (malloc : Bool) → (size : ℕ) → ShmState × Option ℕ → ShmState × Option ℕ
unfolding alloc_new
or_new malloc size (s, some a) = (unlock s, some a)
or_new malloc size (s, none) = alloc_new malloc s size

-- shm_alloc_alloc.
unfoldable pub shm_alloc_alloc : (malloc : Bool) → ShmState → (size : ℕ) → Ran (ShmState × Option ℕ)
unfolding or_new shm_alloc_lookup_freelist
shm_alloc_alloc malloc s size =
    lock s (λ u. returned (or_new malloc size (shm_alloc_lookup_freelist u size)))

-- shm_alloc_free.
unfoldable pub shm_alloc_free : ShmState → ℕ → Ran ShmState
unfolding shm_alloc_add_freelist
shm_alloc_free s a = shm_alloc_add_freelist s a
