-- ===== src/Shm/Limits.antt =====
-- Where shm_alloc_alloc of lib/libiapp/shm_alloc.c meets the limits of malloc(3) and of size_t.
use libiapp.Base.{
  ℕ, ◌+◌, ◌^◌, ◌≤◌, ◌<◌, ◌≡◌, refl, ap, ◌∙◌, Bool, true, false, Option, none, some, List, [], ◌∷◌,
  arith, if◌then◌else◌, store,
}
use libiapp.Shm.State.{Slab, ShmState, returned, blocks, unlock}
use libiapp.Shm.Alloc.{
  carve, take_free, is_full, find_free, first_fit, shm_alloc_lookup_freelist, alloc_new, or_new,
  shm_alloc_alloc, shm_alloc_add_freelist, shm_alloc_free,
}

-- The mutex plays no part in the search.
find_free_locked :
    (s : ShmState) (b : Bool) (size : ℕ) (ks : List ℕ) (found : Option ℕ)
    → find_free (record s { locked = b }) size ks found ≡ find_free s size ks found
unfolding find_free
find_free_locked s b size [] found = refl
find_free_locked s b size (k ∷ ks) found = find_free_locked s b size ks _

-- A call that finds nothing on the free lists.
or_new_new :
    (malloc : Bool) (s : ShmState) (size : ℕ)
    → find_free s size s.slab_list none ≡ none
    → or_new malloc size (shm_alloc_lookup_freelist s size) ≡ alloc_new malloc s size
unfolding or_new shm_alloc_lookup_freelist
or_new_new malloc s size e =
    ap
      (λ (o : Option ℕ).
        or_new malloc size (elim o [ none ↦ (s, none) | some a ↦ (take_free s a, some a) ]))
      e

alloc_new-some :
    (malloc : Bool) (s : ShmState) (size k : ℕ)
    → first_fit s.slabs size s.slab_list ≡ some k
    → alloc_new malloc s size
      ≡ (if malloc then (unlock (carve s k size), some s.next_alloc) else (s, none))
unfolding alloc_new
alloc_new-some malloc s size k e =
    ap
      (λ (o : Option ℕ). elim o [
        | none ↦ (unlock s, none)
        | some k ↦ if malloc then (unlock (carve s k size), some s.next_alloc) else (s, none)
      ])
      e

shm_alloc_alloc_new :
    (malloc : Bool) (s : ShmState) (size k : ℕ)
    → s.locked ≡ false
    → find_free s size s.slab_list none ≡ none
    → first_fit s.slabs size s.slab_list ≡ some k
    → shm_alloc_alloc malloc s size ≡ (
        let t = record s { locked = true } in
        returned (if malloc then (unlock (carve t k size), some s.next_alloc) else (t, none)))
unfolding shm_alloc_alloc
shm_alloc_alloc_new malloc s size k l e f =
    let t = record s { locked = true } in
    rw l (
      ap returned (
        or_new_new malloc t size (find_free_locked s true size s.slab_list none ∙ e)
        ∙ alloc_new-some malloc t size k f))

-- Where the mutex is free, nothing on a free list fits, and a slab has room, but malloc(3) fails:
-- shm_alloc_alloc returns NULL and leaves the mutex held, so that from then on every shm_alloc_alloc,
-- and every shm_alloc_free of an allocation in use, waits for ever.
pub shm_alloc_alloc-blocks :
    (s : ShmState) (size k : ℕ)
    → s.locked ≡ false
    → find_free s size s.slab_list none ≡ none
    → first_fit s.slabs size s.slab_list ≡ some k
    → (malloc : Bool) (later a : ℕ) → (s.allocs a).sha_isactive ≡ true
    → (u : ShmState) × (shm_alloc_alloc false s size ≡ returned (u, none))
      × (shm_alloc_alloc malloc u later ≡ blocks)
      × (shm_alloc_free u a ≡ blocks)
unfolding shm_alloc_alloc shm_alloc_free shm_alloc_add_freelist
shm_alloc_alloc-blocks s size k l e f malloc later a i =
    (record s { locked = true }, shm_alloc_alloc_new false s size k l e f, refl, ground arith)

first_fit-head :
    (m : ℕ → Slab) (size k : ℕ) (ks : List ℕ)
    → is_full (m k) size ≡ false
    → first_fit m size (k ∷ ks) ≡ some k
unfolding first_fit
first_fit-head m size k ks e = rw e

-- A size whose sum with the offset of the first slab wraps around is accepted, where the mutex is free,
-- nothing on a free list fits, malloc(3) succeeds, and the slab is no larger than half of the
-- numbers of 64 bits: what is handed out is longer than the slab, and the offset of the slab moves
-- backwards.
pub shm_alloc_alloc-wraps :
    (s : ShmState) (size k : ℕ) (ks : List ℕ)
    → s.locked ≡ false
    → find_free s size s.slab_list none ≡ none
    → s.slab_list ≡ k ∷ ks
    → (s.slabs k).shm_curofs ≤ (s.slabs k).shm_size
    → (s.slabs k).shm_size < 2 ^ 63
    → size < 2 ^ 64
    → 2 ^ 64 ≤ (s.slabs k).shm_curofs + size
    → (u : ShmState) × (shm_alloc_alloc true s size ≡ returned (u, some s.next_alloc))
      × ((s.slabs k).shm_size < (u.allocs s.next_alloc).sha_len)
      × ((u.slabs k).shm_curofs < (s.slabs k).shm_curofs)
unfolding carve is_full store
shm_alloc_alloc-wraps s size k ks l e g c w z o =
    let f : first_fit s.slabs size s.slab_list ≡ some k =
      ap (first_fit s.slabs size) g ∙ first_fit-head s.slabs size k ks (ground arith) in
    (
      unlock (carve (record s { locked = true }) k size),
      shm_alloc_alloc_new true s size k l e f,
      ground arith,
      ground arith,
    )
