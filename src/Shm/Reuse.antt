-- ===== src/Shm/Reuse.antt =====
-- An allocation that is freed and asked for again: shm_alloc_free and then shm_alloc_alloc of
-- lib/libiapp/shm_alloc.c.
use libiapp.Base.{
  ℕ, ◌≡◌, sym, ap, ◌∙◌, Bool, true, false, Option, none, some, List, [], ◌∷◌, ◌++◌, arith,
  remove-head, store,
}
use mathlib.Core.Path.{subst, fun_ext}
use libiapp.Shm.State.{Slab, Allocation, ShmState, returned, unlock}
use libiapp.Shm.Alloc.{
  put_free, take_free, first_of_size, newest, find_free, shm_alloc_lookup_freelist, or_new,
  shm_alloc_alloc, shm_alloc_add_freelist, shm_alloc_free,
}

newest_lem : (found o : Option ℕ) (a : ℕ) → o ≡ some a → newest found o ≡ some a
unfolding newest
newest_lem found none a e = cc
newest_lem found (some b) a e = e

-- The last slab of the list wins.
find_free_last :
    (s : ShmState) (size k a : ℕ) (ks : List ℕ) (found : Option ℕ)
    → first_of_size s.allocs size (s.slabs k).free_list ≡ some a
    → find_free s size (ks ++ k ∷ []) found ≡ some a
unfolding find_free
find_free_last s size k a [] found e = newest_lem found _ a e
find_free_last s size k a (j ∷ ks) found e = find_free_last s size k a ks _ e

store-head {ℓ} : {A : Type ℓ} (m : ℕ → A) (k : ℕ) (x : A) → store m k x k ≡ x
unfolding store
store-head m k x = ground arith

store-restored {ℓ} : {A : Type ℓ} (m : ℕ → A) (k : ℕ) (x : A) → store (store m k x) k (m k) ≡ m
unfolding store
store-restored m k x = fun_ext (λ j. ground arith)

module _ (s : ShmState) (a : ℕ) where
  put_free-first_of_size :
      first_of_size
        (put_free s a).allocs
        (s.allocs a).sha_len
        ((put_free s a).slabs (s.allocs a).sha_slab).free_list
      ≡ some a
  unfolding put_free first_of_size store
  put_free-first_of_size = ground arith

  put_free_slabs : (take_free (put_free s a) a).slabs ≡ s.slabs
  unfolding take_free put_free store
  put_free_slabs = fun_ext (λ j. ground (arith, remove-head a (s.slabs j).free_list))

  put_free_allocs :
      (s.allocs a).sha_isactive ≡ true → (take_free (put_free s a) a).allocs ≡ s.allocs
  unfolding take_free put_free store
  put_free_allocs i = fun_ext (λ j. ground arith)

restored :
    (s u : ShmState)
    → s.locked ≡ false
    → u.slabs ≡ s.slabs
    → u.allocs ≡ s.allocs
    → record s { locked = false; slabs = u.slabs; allocs = u.allocs } ≡ s
restored s u l e f =
    ap (λ (m : ℕ → Slab). record s { locked = false; slabs = m; allocs = u.allocs }) e
    ∙ ap (λ (m : ℕ → Allocation). record s { locked = false; allocs = m }) f
    ∙ ap (λ b. record s { locked = b }) (sym l)

or_new_free :
    (malloc : Bool) (s : ShmState) (a size : ℕ)
    → find_free s size s.slab_list none ≡ some a
    → or_new malloc size (shm_alloc_lookup_freelist s size) ≡ (unlock (take_free s a), some a)
unfolding or_new shm_alloc_lookup_freelist
or_new_free malloc s a size e =
    ap
      (λ (o : Option ℕ).
        or_new malloc size (elim o [ none ↦ (s, none) | some b ↦ (take_free s b, some b) ]))
      e

take_free-put_free :
    (s : ShmState) (a : ℕ)
    → s.locked ≡ false
    → (s.allocs a).sha_isactive ≡ true
    → unlock (take_free (put_free (record s { locked = true }) a) a) ≡ s
unfolding take_free put_free
take_free-put_free s a l i =
    let t = record s { locked = true } in
    restored s (take_free (put_free t a) a) l (put_free_slabs t a) (put_free_allocs t a i)

-- Where the mutex is free, an active allocation of the last slab that is freed, and then asked for
-- again by its length, comes back, and the whole allocator is as it was; no new memory is asked for.
pub shm_alloc_alloc-shm_alloc_free :
    (malloc : Bool) (s : ShmState) (a : ℕ) (older : List ℕ)
    → s.locked ≡ false
    → (s.allocs a).sha_isactive ≡ true
    → s.slab_list ≡ older ++ (s.allocs a).sha_slab ∷ []
    → (u : ShmState) × (shm_alloc_free s a ≡ returned u)
      × (shm_alloc_alloc malloc u (s.allocs a).sha_len ≡ returned (s, some a))
unfolding shm_alloc_alloc shm_alloc_free shm_alloc_add_freelist
shm_alloc_alloc-shm_alloc_free malloc s a older l i e =
    let t = record s { locked = true } in
    let u = put_free t a in
    let found : find_free u (s.allocs a).sha_len s.slab_list none ≡ some a =
      subst (λ ks. find_free u (s.allocs a).sha_len ks none ≡ some a) (sym e)
        (find_free_last u (s.allocs a).sha_len (s.allocs a).sha_slab a older none
          (put_free-first_of_size t a)) in
    (
      unlock u,
      ground arith,
      ap returned (
          or_new_free malloc u a (s.allocs a).sha_len found
          ∙ ap (λ w. (w, some a)) (take_free-put_free s a l i)),
    )
