-- ===== src/Netbuf/Alloc.antt =====
-- The operations of lib/libiapp/netbuf.c and netbuf.h. What malloc(3) answers is an argument: for the
-- struct, for the buffer, and for the state node of shm_alloc_alloc.
use libiapp.Base.{ℕ, ◌+◌, ◌-◌, ◌%◌, ◌^◌, Bool, Option, none, some, ltb, if◌then◌else◌, store}
use libiapp.Shm.State.{ShmState, Ran, returned, blocks, aborts}
use libiapp.Shm.Alloc.{shm_alloc_alloc, shm_alloc_free}
use libiapp.Netbuf.State.{
  NetbufAllocType, nb_alloc_none, nb_alloc_malloc, nb_alloc_posixshm, NetHeap, take_block,
  free_block, set_netbuf,
}

-- The end of iapp_netbuf_alloc: `buf_size` keeps 32 bits of the size.
unfoldable pub finish : NetHeap → (n sa bufptr minsize : ℕ) → NetbufAllocType → NetHeap × Option ℕ
unfolding store
finish h n sa bufptr minsize atype = (
  set_netbuf h n
      (record { sa = sa; bufptr = bufptr; buf_size = minsize % 2 ^ 32; nb_type = atype }),
  some n,
)

-- The case NB_ALLOC_MALLOC. The field `sa` keeps what was in the memory.
unfoldable pub alloc_malloc : (malloc : Bool) → NetHeap → (n minsize : ℕ) → NetHeap × Option ℕ
unfolding finish
alloc_malloc malloc h n minsize =
    if malloc
    then finish (take_block h) n (h.bufs n).sa h.next_block minsize nb_alloc_malloc
    else (free_block h n, none)

-- The case NB_ALLOC_POSIXSHM.
unfoldable pub alloc_shm :
    NetHeap → (n minsize : ℕ) → Ran (ShmState × Option ℕ) → Ran (NetHeap × Option ℕ)
unfolding finish
alloc_shm h n minsize (returned (s, some a)) =
    returned (finish (record h { shm = s }) n a (s.allocs a).sha_ptr minsize nb_alloc_posixshm)
alloc_shm h n minsize (returned (s, none)) = returned (free_block (record h { shm = s }) n, none)
alloc_shm h n minsize blocks = blocks
alloc_shm h n minsize aborts = aborts

-- The switch of iapp_netbuf_alloc.
unfoldable pub alloc_as :
    (malloc node : Bool) → NetHeap → NetbufAllocType → (n minsize : ℕ) → Ran (NetHeap × Option ℕ)
unfolding alloc_malloc alloc_shm
alloc_as malloc node h nb_alloc_malloc n minsize = returned (alloc_malloc malloc h n minsize)
alloc_as malloc node h nb_alloc_posixshm n minsize =
    alloc_shm h n minsize (shm_alloc_alloc node h.shm minsize)
alloc_as malloc node h nb_alloc_none n minsize = returned (free_block h n, none)

-- iapp_netbuf_alloc.
unfoldable pub iapp_netbuf_alloc :
    (struct malloc node : Bool)
    → NetHeap
    → NetbufAllocType
    → (minsize : ℕ) → Ran (NetHeap × Option ℕ)
unfolding alloc_as
iapp_netbuf_alloc struct malloc node h atype minsize =
    if struct
    then alloc_as malloc node (take_block h) atype h.next_block minsize
    else returned (h, none)

-- The end of iapp_netbuf_free.
unfoldable pub free_after : NetHeap → ℕ → Ran ShmState → Ran NetHeap
free_after h n (returned s) = returned (free_block (record h { shm = s }) n)
free_after h n blocks = blocks
free_after h n aborts = aborts

-- The switch of iapp_netbuf_free. A struct of no known type leaks its buffer.
unfoldable pub free_as : NetHeap → ℕ → NetbufAllocType → Ran NetHeap
unfolding free_after
free_as h n nb_alloc_malloc = returned (free_block (free_block h (h.bufs n).bufptr) n)
free_as h n nb_alloc_posixshm = free_after h n (shm_alloc_free h.shm (h.bufs n).sa)
free_as h n nb_alloc_none = returned (free_block h n)

-- iapp_netbuf_free.
unfoldable pub iapp_netbuf_free : NetHeap → ℕ → Ran NetHeap
unfolding free_as
iapp_netbuf_free h n = free_as h n (h.bufs n).nb_type

-- iapp_netbuf_buf and iapp_netbuf_buf_nonconst.
unfoldable pub iapp_netbuf_buf : NetHeap → ℕ → ℕ
iapp_netbuf_buf h n = (h.bufs n).bufptr

-- iapp_netbuf_size: the int becomes a size_t of 64 bits, its sign extended.
unfoldable pub iapp_netbuf_size : NetHeap → ℕ → ℕ
iapp_netbuf_size h n =
    let k = (h.bufs n).buf_size in if ltb k (2 ^ 31) then k else k + (2 ^ 64 - 2 ^ 32)
