-- ===== src/Shm/State.antt =====
-- The structs of lib/libiapp/shm_alloc.h. Slabs and allocations are addresses of a memory each, which
-- are given out once; TAILQs are lists of addresses. `locked` is the mutex.
use libiapp.Base.{ℕ, Bool, true, false, List, if◌then◌else◌, store}

pub record Slab : Type 0 where
  pub shm_fd : ℕ
  pub shm_size : ℕ
  pub shm_m : ℕ
  pub shm_curofs : ℕ
  pub free_list : List ℕ
  pub free_list_cnt : ℕ

pub record Allocation : Type 0 where
  pub sha_slab : ℕ
  pub sha_fd : ℕ
  pub sha_offset : ℕ
  pub sha_len : ℕ
  pub sha_ptr : ℕ
  pub sha_isactive : Bool

-- `fds` and `maps` are the descriptors and the mappings that the allocator holds.
pub record ShmState : Type 0 where
  pub slab_list : List ℕ
  pub max_size : ℕ
  pub slab_size : ℕ
  pub do_mlock : Bool
  pub locked : Bool
  pub slabs : ℕ → Slab
  pub next_slab : ℕ
  pub allocs : ℕ → Allocation
  pub next_alloc : ℕ
  pub fds : List ℕ
  pub maps : List ℕ

-- What becomes of a call: it returns, waits for a mutex for ever, or ends: it fails an assertion, or uses a NULL
-- or freed memory, behind which nothing is known.
pub data Ran {ℓ} (A : Type ℓ) : Type ℓ where
  returned : A → Ran A
  blocks : Ran A
  aborts : Ran A

abbrev pub set_slab : ShmState → ℕ → Slab → ShmState
set_slab s k h = record s { slabs = store s.slabs k h }

abbrev pub set_alloc : ShmState → ℕ → Allocation → ShmState
set_alloc s a h = record s { allocs = store s.allocs a h }

-- pthread_mutex_lock and pthread_mutex_unlock.
abbrev pub lock {ℓ} : {A : Type ℓ} → ShmState → (ShmState → Ran A) → Ran A
lock s go = if s.locked then blocks else go (record s { locked = true })

abbrev pub unlock : ShmState → ShmState
unlock s = record s { locked = false }
