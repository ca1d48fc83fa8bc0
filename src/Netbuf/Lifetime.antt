-- ===== src/Netbuf/Lifetime.antt =====
-- The life of a buffer of lib/libiapp/netbuf.c.
use libiapp.Base.{
  ℕ, suc, ◌%◌, ◌^◌, ◌<◌, ◌≡◌, ◌⊎◌, inl, inr, refl, sym, ap, ◌∙◌, Bool, true, false, Option, none,
  some, ◌∷◌, arith, ltb, ◌==◌, remove-head, store,
}
use mathlib.Core.Path.{subst}
use libiapp.Shm.State.{ShmState, Ran, returned, blocks, aborts, unlock}
use libiapp.Shm.Alloc.{put_free, shm_alloc_alloc, shm_alloc_add_freelist, shm_alloc_free}
use libiapp.Shm.Sane.{IsSane}
use libiapp.Shm.Steps.{IsSmall, Given, Served, shm_alloc_alloc-Good, shm_alloc_free-IsSane}
use libiapp.Shm.Reach.{returned_injective}
use libiapp.Netbuf.State.{
  NetbufAllocType, nb_alloc_none, nb_alloc_malloc, nb_alloc_posixshm, NetHeap, take_block,
  free_block,
}
use libiapp.Netbuf.Alloc.{
  finish, alloc_malloc, alloc_shm, alloc_as, iapp_netbuf_alloc, free_after, free_as,
  iapp_netbuf_free, iapp_netbuf_size,
}

-- Nothing that was taken since `h` is still in use: netbuf.c and its callers hold the same blocks, an allocation
-- of shared memory is active where it was, and the allocator is sane and its mutex free. The allocator has
-- the nodes that it had, or one more, which it keeps and which is not active.
pub record Settled (h u : NetHeap) : Type 0 where
  pub same_blocks : u.live ≡ h.live
  pub same_use :
      (a : ℕ) → a < h.shm.next_alloc → (u.shm.allocs a).sha_isactive ≡ (h.shm.allocs a).sha_isactive
  pub sane : IsSane u.shm
  pub released : u.shm.locked ≡ false
  pub nodes :
      (u.shm.next_alloc ≡ h.shm.next_alloc)
      ⊎ ((u.shm.next_alloc ≡ suc h.shm.next_alloc)
          × ((u.shm.allocs h.shm.next_alloc).sha_isactive ≡ false))

-- A buffer of `h` at `n` that can be freed into a settled heap.
abbrev pub Freed : NetHeap → NetHeap → ℕ → Type 0
Freed h u n = (v : NetHeap) × (iapp_netbuf_free u n ≡ returned v) × Settled h v

iapp_netbuf_free_shm :
    (h : NetHeap) (n : ℕ) (s : ShmState)
    → (h.bufs n).nb_type ≡ nb_alloc_posixshm
    → shm_alloc_free h.shm (h.bufs n).sa ≡ returned s
    → iapp_netbuf_free h n ≡ returned (free_block (record h { shm = s }) n)
unfolding iapp_netbuf_free free_as free_after
iapp_netbuf_free_shm h n s t e = ap (free_as h n) t ∙ ap (free_after h n) e

module _ (h : NetHeap) (s : IsSane h.shm) (l : h.shm.locked ≡ false) where
  malloc-Freed :
      (minsize : ℕ) → Freed h (alloc_malloc true (take_block h) h.next_block minsize).0 h.next_block
  unfolding alloc_malloc finish iapp_netbuf_free free_as store
  malloc-Freed minsize =
      let u = (alloc_malloc true (take_block h) h.next_block minsize).0 in
      (
        free_block (free_block u (suc h.next_block)) h.next_block,
        ground arith,
        record {
          same_blocks =
              rw (remove-head (suc h.next_block) (h.next_block ∷ h.live))
                (remove-head h.next_block h.live);
          same_use = λ a p. refl;
          sane = s;
          released = l;
          nodes = inl refl;
        },
      )

  shm_alloc_free_lem :
      (u : ShmState) (a : ℕ)
      → u.locked ≡ false
      → (u.allocs a).sha_isactive ≡ true
      → shm_alloc_free u a ≡ returned (unlock (put_free (record u { locked = true }) a))
  unfolding shm_alloc_free shm_alloc_add_freelist
  shm_alloc_free_lem u a i e = ground arith

  Given-use :
      (u : ShmState) (a minsize : ℕ)
      → Given h.shm u minsize a
      → (b : ℕ) → b < h.shm.next_alloc
      → ((unlock (put_free (record u { locked = true }) a)).allocs b).sha_isactive
        ≡ (h.shm.allocs b).sha_isactive
  unfolding put_free store
  Given-use u a minsize g b p = elim g.idle_before [
    | inl new ↦ rw g.others (ground arith)
    | inr idle ↦ rw g.others (ground (arith, idle))
  ]

  Given-nodes :
      (u : ShmState) (a minsize : ℕ)
      → Given h.shm u minsize a
      → (let v = unlock (put_free (record u { locked = true }) a) in
          (v.next_alloc ≡ h.shm.next_alloc)
          ⊎ ((v.next_alloc ≡ suc h.shm.next_alloc)
              × ((v.allocs h.shm.next_alloc).sha_isactive ≡ false)))
  unfolding put_free store
  Given-nodes u a minsize g = elim g.nodes [
    | inl e ↦ inl e
    | inr (e, f) ↦ inr (f, ground (arith, e))
  ]

  shm-Freed :
      (u : ShmState) (a minsize : ℕ)
      → IsSane u
      → Given h.shm u minsize a
      → Freed h
          (finish
            (record (take_block h) { shm = u })
            h.next_block
            a
            (u.allocs a).sha_ptr
            minsize
            nb_alloc_posixshm).0
          h.next_block
  unfolding finish iapp_netbuf_free free_as store
  shm-Freed u a minsize v g =
      let (w, f, x, y) = shm_alloc_free-IsSane u a v g.released g.known g.active in
      let fin = unlock (put_free (record u { locked = true }) a) in
      let d = shm_alloc_free_lem u a g.released g.active in
      let k =
        (finish (record (take_block h) { shm = u }) h.next_block a (u.allocs a).sha_ptr minsize
          nb_alloc_posixshm).0 in
      (
        free_block (record k { shm = fin }) h.next_block,
        iapp_netbuf_free_shm k h.next_block fin (ground arith)
            (ap (shm_alloc_free u) (ground arith) ∙ d),
        record {
          same_blocks = remove-head h.next_block h.live;
          same_use = Given-use u a minsize g;
          sane = subst IsSane (returned_injective (sym f ∙ d)) x;
          released = refl;
          nodes = Given-nodes u a minsize g;
        },
      )

-- What iapp_netbuf_alloc comes to: a buffer that can be freed with nothing left behind, or no buffer, and
-- nothing taken.
abbrev pub Outcome : NetHeap → NetHeap × Option ℕ → Type 0
Outcome h (u, some n) = Freed h u n
Outcome h (u, none) =
    (u.live ≡ h.live) × (u.shm.allocs ≡ h.shm.allocs) × (u.shm.next_alloc ≡ h.shm.next_alloc)

alloc_shm-Outcome :
    (h : NetHeap)
    → IsSane h.shm
    → h.shm.locked ≡ false
    → (u : ShmState) (r : Option ℕ) (minsize : ℕ) → IsSane u
    → Served h.shm minsize (u, r)
    → (x : NetHeap × Option ℕ) × (alloc_shm (take_block h) h.next_block minsize (returned (u, r))
        ≡ returned x)
      × Outcome h x
unfolding alloc_shm
alloc_shm-Outcome h s l u none minsize v g = (_, refl, (remove-head h.next_block h.live, g.0, g.1))
alloc_shm-Outcome h s l u (some a) minsize v g = (_, refl, shm-Freed h s l u a minsize v g)

-- From a sane allocator with a free mutex, and for a size that does not wrap around, iapp_netbuf_alloc
-- returns, whatever malloc(3) answers. It returns no buffer, and then netbuf.c holds the blocks that it held
-- before and the allocations of shared memory are as they were; or it returns a buffer, and then
-- iapp_netbuf_free of it returns, after which netbuf.c holds the same blocks as before, every
-- allocation of shared memory is in use exactly where it was, and the allocator is sane with its mutex free;
-- the allocator then has the nodes that it had, or one more, which it keeps and which is not active.
pub iapp_netbuf_free-iapp_netbuf_alloc :
    (struct malloc node : Bool) (h : NetHeap) (atype : NetbufAllocType) (minsize : ℕ)
    → IsSane h.shm
    → h.shm.locked ≡ false
    → IsSmall h.shm minsize
    → (r : NetHeap × Option ℕ) × (iapp_netbuf_alloc struct malloc node h atype minsize ≡ returned r)
      × Outcome h r
unfolding iapp_netbuf_alloc alloc_as alloc_malloc
iapp_netbuf_free-iapp_netbuf_alloc false malloc node h atype minsize s l w =
    ((h, none), refl, (refl, refl, refl))
iapp_netbuf_free-iapp_netbuf_alloc true malloc node h nb_alloc_none minsize s l w =
    (_, refl, (remove-head h.next_block h.live, refl, refl))
iapp_netbuf_free-iapp_netbuf_alloc true true node h nb_alloc_malloc minsize s l w =
    (_, refl, malloc-Freed h s l minsize)
iapp_netbuf_free-iapp_netbuf_alloc true false node h nb_alloc_malloc minsize s l w =
    (_, refl, (remove-head h.next_block h.live, refl, refl))
iapp_netbuf_free-iapp_netbuf_alloc true malloc node h nb_alloc_posixshm minsize s l w =
    let (u, r, e, v, g) = shm_alloc_alloc-Good node h.shm minsize s l w in
    let (x, f, o) = alloc_shm-Outcome h s l u r minsize v g in
    (x, ap (alloc_shm (take_block h) h.next_block minsize) e ∙ f, o)

abbrev Sized : (minsize : ℕ) → Ran (NetHeap × Option ℕ) → Type 0
Sized minsize (returned (u, some n)) = (u.bufs n).buf_size ≡ minsize % 2 ^ 32
Sized minsize (returned (u, none)) = Unit
Sized minsize blocks = Unit
Sized minsize aborts = Unit

finish-Sized :
    (h : NetHeap) (n sa bufptr minsize : ℕ) (atype : NetbufAllocType)
    → Sized minsize (returned (finish h n sa bufptr minsize atype))
unfolding finish store
finish-Sized h n sa bufptr minsize atype = ground arith

alloc_shm-Sized :
    (h : NetHeap) (n minsize : ℕ) (r : Ran (ShmState × Option ℕ))
    → Sized minsize (alloc_shm h n minsize r)
unfolding alloc_shm
alloc_shm-Sized h n minsize (returned (s, some a)) =
    finish-Sized (record h { shm = s }) n a (s.allocs a).sha_ptr minsize nb_alloc_posixshm
alloc_shm-Sized h n minsize (returned (s, none)) = tt
alloc_shm-Sized h n minsize blocks = tt
alloc_shm-Sized h n minsize aborts = tt

iapp_netbuf_alloc-Sized :
    (struct malloc node : Bool) (h : NetHeap) (atype : NetbufAllocType) (minsize : ℕ)
    → Sized minsize (iapp_netbuf_alloc struct malloc node h atype minsize)
unfolding iapp_netbuf_alloc alloc_as alloc_malloc
iapp_netbuf_alloc-Sized false malloc node h atype minsize = tt
iapp_netbuf_alloc-Sized true malloc node h nb_alloc_none minsize = tt
iapp_netbuf_alloc-Sized true true node h nb_alloc_malloc minsize =
    finish-Sized (take_block (take_block h)) h.next_block (h.bufs h.next_block).sa
      (suc h.next_block) minsize nb_alloc_malloc
iapp_netbuf_alloc-Sized true false node h nb_alloc_malloc minsize = tt
iapp_netbuf_alloc-Sized true malloc node h nb_alloc_posixshm minsize =
    alloc_shm-Sized (take_block h) h.next_block minsize (shm_alloc_alloc node h.shm minsize)

-- The size of a buffer as iapp_netbuf_alloc returned it, for a size below 2^63: it is the size asked for
-- exactly where that is below 2^31, since the struct keeps it in an int.
iapp_netbuf_size-iapp_netbuf_alloc :
    (struct malloc node : Bool) (h : NetHeap) (atype : NetbufAllocType) (minsize : ℕ) {u : NetHeap}
    {n : ℕ}
    → minsize < 2 ^ 63
    → iapp_netbuf_alloc struct malloc node h atype minsize ≡ returned (u, some n)
    → (iapp_netbuf_size u n == minsize) ≡ ltb minsize (2 ^ 31)
unfolding iapp_netbuf_size
iapp_netbuf_size-iapp_netbuf_alloc struct malloc node h atype minsize {u} {n} w e =
    let k : (u.bufs n).buf_size ≡ minsize % 2 ^ 32 =
      subst (Sized minsize) e (iapp_netbuf_alloc-Sized struct malloc node h atype minsize) in
    ground arith
