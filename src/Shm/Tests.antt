-- ===== src/Shm/Tests.antt =====
-- Runs of the allocator of lib/libiapp/shm_alloc.c, and the theorems at concrete inputs.
use libiapp.Base.{
  ℕ, ◌-◌, ◌^◌, ◌<◌, ◌≡◌, refl, true, false, not, Option, none, some, [], ◌∷◌, arith, has, length,
  ltb, ◌==◌, ◌&&◌,
}
use libiapp.Shm.State.{Slab, Allocation, ShmState, Ran, returned, blocks, aborts}
use libiapp.Shm.Alloc.{
  SlabCalls, shm_alloc_new_slab, shm_alloc_init, shm_alloc_alloc, shm_alloc_free,
}
use libiapp.Shm.Sane.{IsSane}
use libiapp.Shm.Slabs.{Grown, shm_alloc_new_slab-Grown, shm_alloc_init-IsSane}
use libiapp.Shm.Steps.{IsSmall, Served, shm_alloc_alloc-Good, shm_alloc_free-IsSane}
use libiapp.Shm.Reach.{
  ShmStep, allocates, frees, ShmReach, here, next, ShmReach-IsSane, IsMapped, IsApart,
  shm_alloc_init-IsMapped, shm_alloc_init-IsApart, shm_alloc_init-counted,
}
use libiapp.Shm.Reuse.{shm_alloc_alloc-shm_alloc_free}
use libiapp.Shm.Limits.{shm_alloc_alloc-blocks, shm_alloc_alloc-wraps}

abbrev all_good : SlabCalls
all_good = record {
  calloc = true;
  shm_open = some 5;
  ftruncate = true;
  mmap = some 4096;
  mlock = true;
}

abbrev no_slabs : ℕ → Slab
no_slabs k = record {
  shm_fd = 0;
  shm_size = 0;
  shm_m = 0;
  shm_curofs = 0;
  free_list = [];
  free_list_cnt = 0;
}

abbrev no_allocs : ℕ → Allocation
no_allocs a = record {
  sha_slab = 0;
  sha_fd = 0;
  sha_offset = 0;
  sha_len = 0;
  sha_ptr = 0;
  sha_isactive = false;
}

abbrev initial : ShmState
initial = shm_alloc_init all_good no_slabs no_allocs 1000 100 false

abbrev after : Ran (ShmState × Option ℕ) → ShmState
after (returned (u, r)) = u
after blocks = initial
after aborts = initial

abbrev freed : Ran ShmState → ShmState
freed (returned u) = u
freed blocks = initial
freed aborts = initial

-- Ten bytes, twenty bytes, and the ten bytes given back.
abbrev one : ShmState
one = after (shm_alloc_alloc true initial 10)

abbrev two : ShmState
two = after (shm_alloc_alloc true one 20)

abbrev three : ShmState
three = freed (shm_alloc_free two 0)

two_offset : (two.slabs 0).shm_curofs ≡ 30
unfolding shm_alloc_alloc shm_alloc_init
two_offset = refl

three_free : (three.slabs 0).free_list ≡ 0 ∷ []
unfolding shm_alloc_alloc shm_alloc_init shm_alloc_free
three_free = refl

initial-IsSmall : IsSmall initial 10
unfolding shm_alloc_init has
initial-IsSmall k h = ground arith

one-IsSmall : IsSmall one 20
unfolding shm_alloc_alloc shm_alloc_init has
one-IsSmall k h = ground arith

makes_one : ShmStep initial one
unfolding shm_alloc_alloc shm_alloc_init
makes_one = allocates true 10 refl initial-IsSmall refl

makes_two : ShmStep one two
unfolding shm_alloc_alloc shm_alloc_init
makes_two = allocates true 20 refl one-IsSmall refl

makes_three : ShmStep two three
unfolding shm_alloc_alloc shm_alloc_init shm_alloc_free
makes_three = frees 0 refl (omega arith) refl refl

all_three : ShmReach initial three
all_three = next (next (next here makes_one) makes_two) makes_three

one-IsSane : IsSane one
one-IsSane =
    ShmReach-IsSane (next here makes_one)
      (shm_alloc_init-IsSane all_good no_slabs no_allocs 1000 100 false)

shm_alloc_new_slab-Grown_example :
    Grown all_good true initial 200 (shm_alloc_new_slab all_good initial 200 true).0
    × ((shm_alloc_new_slab all_good initial 200 true).1 ≡ none)
shm_alloc_new_slab-Grown_example = shm_alloc_new_slab-Grown all_good initial 200 true

shm_alloc_alloc-Good_example :
    (u : ShmState) × (r : Option ℕ) × (shm_alloc_alloc true one 20 ≡ returned (u, r))
    × IsSane u
    × Served one 20 (u, r)
unfolding shm_alloc_alloc shm_alloc_init
shm_alloc_alloc-Good_example = shm_alloc_alloc-Good true one 20 one-IsSane refl one-IsSmall

shm_alloc_free-IsSane_example :
    (u : ShmState) × (shm_alloc_free one 0 ≡ returned u) × IsSane u × (u.locked ≡ false)
unfolding shm_alloc_alloc shm_alloc_init
shm_alloc_free-IsSane_example = shm_alloc_free-IsSane one 0 one-IsSane refl (omega arith) refl

shm_alloc_init-IsMapped_example :
    (has (three.allocs 1).sha_slab three.slab_list ≡ true) × IsMapped three 1
unfolding shm_alloc_alloc shm_alloc_init shm_alloc_free
shm_alloc_init-IsMapped_example =
    shm_alloc_init-IsMapped all_good no_slabs no_allocs 1000 100 false all_three 1 (omega arith)

shm_alloc_init-IsApart_example : IsApart (three.allocs 0) (three.allocs 1)
unfolding shm_alloc_alloc shm_alloc_init shm_alloc_free
shm_alloc_init-IsApart_example =
    shm_alloc_init-IsApart all_good no_slabs no_allocs 1000 100 false all_three 0 1 (omega arith)
      (omega arith) refl refl

shm_alloc_init-counted_example :
    ((three.slabs 0).free_list_cnt ≡ length (three.slabs 0).free_list)
    × ((a : ℕ)
        → has a (three.slabs 0).free_list ≡ (
            ltb a three.next_alloc
            && ((three.allocs a).sha_slab == 0)
            && not (three.allocs a).sha_isactive))
unfolding shm_alloc_alloc shm_alloc_init shm_alloc_free has
shm_alloc_init-counted_example =
    shm_alloc_init-counted all_good no_slabs no_allocs 1000 100 false all_three 0 refl

shm_alloc_alloc-shm_alloc_free_example :
    (u : ShmState) × (shm_alloc_free two 0 ≡ returned u)
    × (shm_alloc_alloc false u 10 ≡ returned (two, some 0))
unfolding shm_alloc_alloc shm_alloc_init
shm_alloc_alloc-shm_alloc_free_example =
    shm_alloc_alloc-shm_alloc_free false two 0 [] refl refl refl

shm_alloc_alloc-blocks_example :
    (u : ShmState) × (shm_alloc_alloc false one 20 ≡ returned (u, none))
    × (shm_alloc_alloc true u 7 ≡ blocks)
    × (shm_alloc_free u 0 ≡ blocks)
unfolding shm_alloc_alloc shm_alloc_init
shm_alloc_alloc-blocks_example = shm_alloc_alloc-blocks one 20 0 refl refl refl true 7 0 refl

shm_alloc_alloc-wraps_example :
    (u : ShmState) × (shm_alloc_alloc true one (2 ^ 64 - 1) ≡ returned (u, some 1))
    × (100 < (u.allocs 1).sha_len)
    × ((u.slabs 0).shm_curofs < 10)
unfolding shm_alloc_alloc shm_alloc_init
shm_alloc_alloc-wraps_example =
    shm_alloc_alloc-wraps one (2 ^ 64 - 1) 0 [] refl refl refl (omega arith) (omega arith)
      (omega arith) (omega arith)
