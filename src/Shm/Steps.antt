-- ===== src/Shm/Steps.antt =====
-- Whole calls of lib/libiapp/shm_alloc.h, and what holds after any number of them.
use libiapp.Base.{
  suc, ℕ, ◌+◌, ◌^◌, ◌≤◌, ◌<◌, ◌≡◌, ◌⊎◌, refl, inl, inr, Bool, true, false, Option, none, some, List,
  [], ◌∷◌, arith, if_both, option_cases, has, store,
}
use mathlib.Core.Path.{fun_ext}
use libiapp.Shm.State.{Slab, Allocation, ShmState, returned, unlock}
use libiapp.Shm.Alloc.{
  carve, take_free, put_free, is_full, first_of_size, newest, find_free, shm_alloc_lookup_freelist,
  first_fit, alloc_new, or_new, shm_alloc_alloc, shm_alloc_add_freelist, shm_alloc_free,
}
use libiapp.Shm.Sane.{IsSane, carve-IsSane, take_free-IsSane, put_free-IsSane, relock-IsSane}

first_of_size-some :
    (m : ℕ → Allocation) (size a : ℕ) (xs : List ℕ)
    → first_of_size m size xs ≡ some a
    → (has a xs ≡ true) × ((m a).sha_len ≡ size)
unfolding first_of_size has
first_of_size-some m size a [] e = cc
first_of_size-some m size a (x ∷ xs) e = ground (arith, first_of_size-some m size a xs)

-- An allocation of the right length on the free list of a slab.
abbrev IsFit : ShmState → (size : ℕ) → List ℕ → ℕ → Type 0
IsFit s size ks a =
    (k : ℕ) × (has k ks ≡ true)
    × (has a (s.slabs k).free_list ≡ true)
    × ((s.allocs a).sha_len ≡ size)

IsFit-cons :
    (s : ShmState) (size j : ℕ) (ks : List ℕ) (a : ℕ) → IsFit s size ks a → IsFit s size (j ∷ ks) a
unfolding has
IsFit-cons s size j ks a (k, l, f, e) = (k, ground arith, f, e)

newest-some :
    (found o : Option ℕ) (a : ℕ) → newest found o ≡ some a → (found ≡ some a) ⊎ (o ≡ some a)
unfolding newest
newest-some found none a e = inl e
newest-some found (some b) a e = inr e

find_free-some :
    (s : ShmState) (size a : ℕ) (ks : List ℕ) (found : Option ℕ)
    → find_free s size ks found ≡ some a
    → (found ≡ some a) ⊎ IsFit s size ks a
unfolding find_free has
find_free-some s size a [] found e = inl e
find_free-some s size a (k ∷ ks) found e =
    let o = first_of_size s.allocs size (s.slabs k).free_list in
    elim (find_free-some s size a ks (newest found o) e) [
      | inl here ↦ elim (newest-some found o a here) [
        | inl old ↦ inl old
        | inr new ↦
            let (f, l) = first_of_size-some s.allocs size a (s.slabs k).free_list new in
            inr (k, ground arith, f, l)
      ]
      | inr later ↦ inr (IsFit-cons s size k ks a later)
    ]

find_free-IsFit :
    (s : ShmState) (size a : ℕ)
    → find_free s size s.slab_list none ≡ some a
    → IsFit s size s.slab_list a
find_free-IsFit s size a e = elim (find_free-some s size a s.slab_list none e) [
  | inl n ↦ cc
  | inr f ↦ f
]

first_fit-some :
    (m : ℕ → Slab) (size k : ℕ) (ks : List ℕ)
    → first_fit m size ks ≡ some k
    → (has k ks ≡ true) × (is_full (m k) size ≡ false)
unfolding first_fit has
first_fit-some m size k [] e = cc
first_fit-some m size k (j ∷ ks) e = ground (arith, first_fit-some m size k ks)

-- The sum of a slab's size and of a new allocation's length has 64 bits.
abbrev pub IsSmall : ShmState → (size : ℕ) → Type 0
IsSmall s size = (k : ℕ) → has k s.slab_list ≡ true → (s.slabs k).shm_size + size < 2 ^ 64

-- What shm_alloc_alloc hands out: an allocation of the length asked for that was not in use, active
-- now, every other one as it was.
pub record Given (s u : ShmState) (size a : ℕ) : Type 0 where
  pub idle_before : (s.next_alloc ≤ a) ⊎ ((s.allocs a).sha_isactive ≡ false)
  pub known : a < u.next_alloc
  pub active : (u.allocs a).sha_isactive ≡ true
  pub long : (u.allocs a).sha_len ≡ size
  pub others : u.allocs ≡ store s.allocs a (u.allocs a)
  pub released : u.locked ≡ false
  pub nodes :
      (u.next_alloc ≡ s.next_alloc) ⊎ ((a ≡ s.next_alloc) × (u.next_alloc ≡ suc s.next_alloc))

-- What shm_alloc_alloc returns: an allocation; or none, and the allocations are as before.
abbrev pub Served : ShmState → (size : ℕ) → ShmState × Option ℕ → Type 0
Served s size (u, some a) = Given s u size a
Served s size (u, none) = (u.allocs ≡ s.allocs) × (u.next_alloc ≡ s.next_alloc)

carve-Given : (s : ShmState) (k size : ℕ) → Given s (unlock (carve s k size)) size s.next_alloc
unfolding carve store
carve-Given s k size = record {
  idle_before = inl (omega arith);
  known = omega arith;
  active = ground arith;
  long = ground arith;
  others = fun_ext (λ b. ground arith);
  released = refl;
  nodes = inr (refl, refl);
}

take_free-Given :
    (s : ShmState) (v : IsSane s) (size a : ℕ)
    → IsFit s size s.slab_list a
    → Given s (unlock (take_free s a)) size a
unfolding take_free store
take_free-Given s v size a (k, l, f, e) =
    let (n, _, i) = v.free k a l f in
    record {
      idle_before = inr i;
      known = n;
      active = ground arith;
      long = ground arith;
      others = fun_ext (λ b. ground arith);
      released = refl;
      nodes = inl refl;
    }

abbrev Good : ShmState → (size : ℕ) → ShmState × Option ℕ → Type 0
Good s size r = IsSane r.0 × Served s size r

module _ (s : ShmState) (v : IsSane s) where
  alloc_new-Good :
      (malloc : Bool) (size : ℕ) → IsSmall s size → Good s size (alloc_new malloc s size)
  unfolding alloc_new
  alloc_new-Good malloc size w =
      option_cases (Good s size) (first_fit s.slabs size s.slab_list)
        (λ e. (relock-IsSane s v false s.fds s.maps, (refl, refl)))
        (λ k e.
          let (l, f) = first_fit-some s.slabs size k s.slab_list e in
          if_both (Good s size) malloc
            (
              relock-IsSane (carve s k size) (carve-IsSane s v k size l f (w k l)) false s.fds
                  s.maps,
              carve-Given s k size,
            )
            (v, (refl, refl)))

  or_new-Good :
      (malloc : Bool) (size : ℕ)
      → IsSmall s size
      → Good s size (or_new malloc size (shm_alloc_lookup_freelist s size))
  unfolding or_new shm_alloc_lookup_freelist
  or_new-Good malloc size w = go _ refl
    where
      go :
          (o : Option ℕ)
          → find_free s size s.slab_list none ≡ o
          → Good s size
              (or_new malloc size (elim o [ none ↦ (s, none) | some a ↦ (take_free s a, some a) ]))
      go none e = alloc_new-Good malloc size w
      go (some a) e =
          let (k, l, f, n) = find_free-IsFit s size a e in
          (
            relock-IsSane (take_free s a) (take_free-IsSane s v k a l f) false s.fds s.maps,
            take_free-Given s v size a (k, l, f, n),
          )

forget_lock :
    (s : ShmState) (size : ℕ) (r : ShmState × Option ℕ)
    → Served (record s { locked = true }) size r
    → Served s size r
forget_lock s size (u, none) g = g
forget_lock s size (u, some a) g = record {
  idle_before = g.idle_before;
  known = g.known;
  active = g.active;
  long = g.long;
  others = g.others;
  released = g.released;
  nodes = g.nodes;
}

-- shm_alloc_alloc returns where the mutex is free. The allocator stays sane. What it hands out has the
-- length asked for, was not in use before, and is active now, while every other allocation is as it was;
-- where it hands out none, the allocations are as before. No size wraps around.
pub shm_alloc_alloc-Good :
    (malloc : Bool) (s : ShmState) (size : ℕ)
    → IsSane s
    → s.locked ≡ false
    → IsSmall s size
    → (u : ShmState) × (r : Option ℕ) × (shm_alloc_alloc malloc s size ≡ returned (u, r))
      × IsSane u
      × Served s size (u, r)
unfolding shm_alloc_alloc
shm_alloc_alloc-Good malloc s size v l w =
    let t = record s { locked = true } in
    let x = or_new malloc size (shm_alloc_lookup_freelist t size) in
    let g : Good t size x = or_new-Good t (relock-IsSane s v true s.fds s.maps) malloc size w in
    (x.0, x.1, ground arith, g.0, forget_lock s size x g.1)

-- shm_alloc_free of an active allocation returns, keeps the allocator sane, and leaves the mutex free.
pub shm_alloc_free-IsSane :
    (s : ShmState) (a : ℕ)
    → IsSane s
    → s.locked ≡ false
    → a < s.next_alloc
    → (s.allocs a).sha_isactive ≡ true
    → (u : ShmState) × (shm_alloc_free s a ≡ returned u) × IsSane u × (u.locked ≡ false)
unfolding shm_alloc_free shm_alloc_add_freelist
shm_alloc_free-IsSane s a v l n i =
    let t = record s { locked = true } in
    (
      unlock (put_free t a),
      ground arith,
      relock-IsSane (put_free t a) (put_free-IsSane t (relock-IsSane s v true s.fds s.maps) a n i)
          false s.fds s.maps,
      refl,
    )
