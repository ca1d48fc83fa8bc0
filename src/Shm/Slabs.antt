-- ===== src/Shm/Slabs.antt =====
-- Making slabs: shm_alloc_new_slab and shm_alloc_init of lib/libiapp/shm_alloc.c.
use libiapp.Base.{
  ℕ, ◌≡◌, ◌⊎◌, refl, sym, ap, ◌∙◌, inl, inr, Bool, true, false, Option, none, some, [], ◌∷◌, arith,
  if_cases, not, ◌&&◌, ◌||◌, option_cases, has, remove, has_nil, remove-head,
}
use mathlib.Core.Path.{subst}
use libiapp.Shm.State.{Slab, Allocation, ShmState}
use libiapp.Shm.Alloc.{
  SlabCalls, add_slab, map_slab, unmap, close_fd, shm_alloc_new_slab, shm_alloc_init,
}
use libiapp.Shm.Sane.{IsSane, add_slab-IsSane, relock-IsSane}

abbrev is_given {ℓ} : {A : Type ℓ} → Option A → Bool
is_given none = false
is_given (some x) = true

-- Every call that shm_alloc_new_slab makes succeeds; mlock(2) is called where it is asked for.
abbrev pub all_given : SlabCalls → (do_mlock : Bool) → Bool
all_given sys do_mlock =
    sys.calloc
    && is_given sys.shm_open
    && sys.ftruncate
    && is_given sys.mmap
    && (not do_mlock || sys.mlock)

-- Nothing where a call fails, and else one more slab, with the descriptor and the mapping that were given.
abbrev pub Grown : SlabCalls → (do_mlock : Bool) → ShmState → (size : ℕ) → ShmState → Type 0
Grown sys do_mlock s size u =
    ((all_given sys do_mlock ≡ false) × (u ≡ s))
    ⊎ ((all_given sys do_mlock ≡ true)
        × ((fd : ℕ) × (m : ℕ) × (sys.shm_open ≡ some fd)
            × (sys.mmap ≡ some m)
            × (u ≡ add_slab (record s { fds = fd ∷ s.fds; maps = m ∷ s.maps }) fd m size)))

module _ (sys : SlabCalls) (s : ShmState) (size : ℕ) (do_mlock : Bool) where
  close_fd_lem : (fd : ℕ) → close_fd (record s { fds = fd ∷ s.fds }) fd ≡ s
  unfolding close_fd
  close_fd_lem fd = ap (λ l. record s { fds = l }) (remove-head fd s.fds)

  unmap-close_fd :
      (fd m : ℕ)
      → close_fd (unmap (record s { fds = fd ∷ s.fds; maps = m ∷ s.maps }) (some m)) fd ≡ s
  unfolding close_fd unmap
  unmap-close_fd fd m =
      ap (λ l. record s { fds = remove fd (fd ∷ s.fds); maps = l }) (remove-head m s.maps)
      ∙ ap (λ l. record s { fds = l }) (remove-head fd s.fds)

  unmap_failed : (fd : ℕ) → close_fd (unmap (record s { fds = fd ∷ s.fds }) none) fd ≡ s
  unfolding unmap
  unmap_failed fd = close_fd_lem fd

  map_slab-Grown :
      (fd : ℕ)
      → sys.calloc ≡ true
      → sys.shm_open ≡ some fd
      → sys.ftruncate ≡ true
      → Grown sys do_mlock s size (map_slab sys (record s { fds = fd ∷ s.fds }) fd size do_mlock)
  unfolding map_slab
  map_slab-Grown fd c o f =
      let Makes = Grown sys do_mlock s size in
      option_cases Makes sys.mmap (λ e. inl (ground (arith, e), unmap_failed fd))
        (λ m e.
          if_cases Makes do_mlock
            (λ d.
              if_cases Makes sys.mlock
                (λ l. inr (ground (arith, c, o, f, e, l), (fd, m, o, e, refl)))
                (λ l. inl (ground (arith, d, l), unmap-close_fd fd m)))
            (λ d. inr (ground (arith, c, o, f, e, d), (fd, m, o, e, refl))))

  -- Where every call that it makes succeeds, shm_alloc_new_slab makes a whole slab, with the descriptor of
  -- shm_open(2) and the mapping of mmap(2); where one fails, it leaves everything as it was, with no
  -- descriptor and no mapping left behind; and it returns NULL in both cases.
  pub shm_alloc_new_slab-Grown :
      Grown sys do_mlock s size (shm_alloc_new_slab sys s size do_mlock).0
      × ((shm_alloc_new_slab sys s size do_mlock).1 ≡ none)
  unfolding shm_alloc_new_slab
  shm_alloc_new_slab-Grown =
      let Makes = Grown sys do_mlock s size in
      if_cases (λ (r : ShmState × Option ℕ). Makes r.0 × (r.1 ≡ none)) sys.calloc
        (λ c. (
          option_cases Makes sys.shm_open (λ e. inl (ground (arith, e), refl))
              (λ fd e.
                if_cases Makes sys.ftruncate (λ f. map_slab-Grown fd c e f)
                  (λ f. inl (ground (arith, f), close_fd_lem fd))),
          refl,
        ))
        (λ c. (inl (ground (arith, c), refl), refl))

Grown-IsSane :
    (sys : SlabCalls) (do_mlock : Bool) (s u : ShmState) (size : ℕ)
    → IsSane s
    → Grown sys do_mlock s size u
    → IsSane u
Grown-IsSane sys do_mlock s u size v (inl (k, e)) = subst IsSane (sym e) v
Grown-IsSane sys do_mlock s u size v (inr (k, (fd, m, p, q, e))) =
    let t = record s { fds = fd ∷ s.fds; maps = m ∷ s.maps } in
    subst IsSane (sym e)
      (add_slab-IsSane t (relock-IsSane s v s.locked (fd ∷ s.fds) (m ∷ s.maps)) fd m size)

pub shm_alloc_new_slab-IsSane :
    (sys : SlabCalls) (s : ShmState) (size : ℕ) (do_mlock : Bool)
    → IsSane s
    → IsSane (shm_alloc_new_slab sys s size do_mlock).0
shm_alloc_new_slab-IsSane sys s size do_mlock v =
    Grown-IsSane sys do_mlock s _ size v (shm_alloc_new_slab-Grown sys s size do_mlock).0

-- An allocator without slabs.
pub empty-IsSane : (s : ShmState) → s.slab_list ≡ [] → s.next_alloc ≡ 0 → IsSane s
empty-IsSane s e n =
    let no : (k : ℕ) → has k s.slab_list ≡ true → ⊥ = λ k h. ground (arith, e, has_nil k) in
    record {
      owned = λ a h. absurd (omega arith);
      inside = λ a h. absurd (omega arith);
      within = λ k h. absurd (no k h);
      apart = λ a b p q d g. absurd (omega arith);
      pointed = λ a h. absurd (omega arith);
      free = λ k a g h. absurd (no k g);
      idle = λ a h i. absurd (omega arith);
      once = λ k h. absurd (no k h);
      counted = λ k h. absurd (no k h);
      listed = λ k h. absurd (no k h);
    }

pub shm_alloc_init-IsSane :
    (sys : SlabCalls) (slabs : ℕ → Slab) (allocs : ℕ → Allocation) (max_size slab_size : ℕ)
    (do_mlock : Bool)
    → IsSane (shm_alloc_init sys slabs allocs max_size slab_size do_mlock)
unfolding shm_alloc_init
shm_alloc_init-IsSane sys slabs allocs max_size slab_size do_mlock =
    let r = (shm_alloc_new_slab sys _ slab_size do_mlock).0 in
    relock-IsSane r (shm_alloc_new_slab-IsSane sys _ slab_size do_mlock (empty-IsSane _ refl refl))
      false r.fds r.maps
