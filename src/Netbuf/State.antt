-- ===== src/Netbuf/State.antt =====
-- The data of lib/libiapp/netbuf.h, and the memory that malloc(3) hands out: blocks with an address
-- each, which are given out once. `live` are the blocks that netbuf.c and its callers took by malloc(3) and calloc(3)
-- themselves; the nodes that shm_alloc.c takes are its allocations, which it never gives back, and what
-- comm_create and fde_create take are the comm objects and the events, which stand elsewhere. `bufs` is what the blocks of struct iapp_netbuf hold; it is read only
-- at such blocks.
use libiapp.Base.{ℕ, suc, List, ◌∷◌, remove, store}
use libiapp.Shm.State.{ShmState}

pub data NetbufAllocType : Type 0 where
  nb_alloc_none nb_alloc_malloc nb_alloc_posixshm : NetbufAllocType

-- `buf_size` is an int: 32 bits.
pub record Netbuf : Type 0 where
  pub sa : ℕ
  pub bufptr : ℕ
  pub buf_size : ℕ
  pub nb_type : NetbufAllocType

pub record NetHeap : Type 0 where
  pub shm : ShmState
  pub live : List ℕ
  pub next_block : ℕ
  pub bufs : ℕ → Netbuf

-- malloc(3) where it succeeds, and free(3).
abbrev pub take_block : NetHeap → NetHeap
take_block h = record h { live = h.next_block ∷ h.live; next_block = suc h.next_block }

abbrev pub free_block : NetHeap → ℕ → NetHeap
free_block h b = record h { live = remove b h.live }

abbrev pub set_netbuf : NetHeap → ℕ → Netbuf → NetHeap
set_netbuf h n x = record h { bufs = store h.bufs n x }
