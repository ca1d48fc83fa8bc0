-- ===== src/Shm/Reach.antt =====
-- Any number of calls of lib/libiapp/shm_alloc.h, from shm_alloc_init on.
use libiapp.Base.{
  ℕ, ◌+◌, ◌≤◌, ◌<◌, ◌≡◌, ◌⊎◌, sym, ap, ◌∙◌, inl, inr, Bool, true, false, Option, arith, leb,
  Bool-cases, ◌==◌, ◌&&◌, ltb, has, length, not,
}
use mathlib.Core.Path.{subst}
use libiapp.Shm.State.{Slab, Allocation, ShmState, returned, aborts}
use libiapp.Shm.Alloc.{
  SlabCalls, shm_alloc_new_slab, shm_alloc_init, shm_alloc_alloc, shm_alloc_free,
}
use libiapp.Shm.Sane.{IsSane, is_apart}
use libiapp.Shm.Slabs.{shm_alloc_new_slab-IsSane, shm_alloc_init-IsSane}
use libiapp.Shm.Steps.{IsSmall, shm_alloc_alloc-Good, shm_alloc_free-IsSane}

pub returned_injective {ℓ} : {A : Type ℓ} {a b : A} → returned a ≡ returned b → a ≡ b
returned_injective e = cc

pub returned-aborts {ℓ} : {A : Type ℓ} {a : A} → ¬ (returned a ≡ aborts)
returned-aborts e = cc

-- A call that returned. An allocation is asked for with a size that does not wrap around, and only
-- what was handed out and is in use is freed.
pub data ShmStep (s : ShmState) : ShmState → Type 0 where
  allocates :
      (malloc : Bool) (size : ℕ) {u : ShmState} {r : Option ℕ}
      → s.locked ≡ false
      → IsSmall s size
      → shm_alloc_alloc malloc s size ≡ returned (u, r)
      → ShmStep s u
  frees :
      (a : ℕ) {u : ShmState}
      → s.locked ≡ false
      → a < s.next_alloc
      → (s.allocs a).sha_isactive ≡ true
      → shm_alloc_free s a ≡ returned u
      → ShmStep s u
  grows :
      (sys : SlabCalls) (size : ℕ) (do_mlock : Bool)
      → ShmStep s (shm_alloc_new_slab sys s size do_mlock).0

pub data ShmReach (s : ShmState) : ShmState → Type 0 where
  here : ShmReach s s
  next : {t u : ShmState} → ShmReach s t → ShmStep t u → ShmReach s u

ShmStep-IsSane : {s u : ShmState} → ShmStep s u → IsSane s → IsSane u
ShmStep-IsSane {s} (allocates malloc size l w e) v =
    let (t, r, f, g, _) = shm_alloc_alloc-Good malloc s size v l w in
    subst IsSane (ap (λ (p : ShmState × Option ℕ). p.0) (returned_injective (sym f ∙ e))) g
ShmStep-IsSane {s} (frees a l n i e) v =
    let (t, f, g, _) = shm_alloc_free-IsSane s a v l n i in
    subst IsSane (returned_injective (sym f ∙ e)) g
ShmStep-IsSane {s} (grows sys size do_mlock) v = shm_alloc_new_slab-IsSane sys s size do_mlock v

pub ShmReach-IsSane : {s u : ShmState} → ShmReach s u → IsSane s → IsSane u
ShmReach-IsSane here v = v
ShmReach-IsSane (next r t) v = ShmStep-IsSane t (ShmReach-IsSane r v)

-- The bytes of an allocation lie in the mapping of its slab.
abbrev pub IsMapped : ShmState → ℕ → Type 0
IsMapped s a =
    let sa = s.allocs a in
    let sh = s.slabs sa.sha_slab in
    (sh.shm_m ≤ sa.sha_ptr) × (sa.sha_ptr + sa.sha_len ≤ sh.shm_m + sh.shm_size)

-- The bytes of two allocations do not overlap.
abbrev pub IsApart : Allocation → Allocation → Type 0
IsApart a b = (a.sha_ptr + a.sha_len ≤ b.sha_ptr) ⊎ (b.sha_ptr + b.sha_len ≤ a.sha_ptr)

is_apart-IsApart :
    (a b : Allocation) (m : ℕ)
    → a.sha_ptr ≡ m + a.sha_offset
    → b.sha_ptr ≡ m + b.sha_offset
    → is_apart a b ≡ true
    → IsApart a b
is_apart-IsApart a b m p q e = elim (Bool-cases (leb (a.sha_offset + a.sha_len) b.sha_offset)) [
  | inl y ↦ inl (ground arith)
  | inr n ↦ inr (ground arith)
]

module _ (sys : SlabCalls) (slabs : ℕ → Slab) (allocs : ℕ → Allocation) (max_size slab_size : ℕ)
    (do_mlock : Bool) {s : ShmState}
    (r : ShmReach (shm_alloc_init sys slabs allocs max_size slab_size do_mlock) s) where
  sane : IsSane s
  sane = ShmReach-IsSane r (shm_alloc_init-IsSane sys slabs allocs max_size slab_size do_mlock)

  -- From shm_alloc_init on, after any calls that returned, of which none asks for a size that wraps
  -- around or frees what is not in use: the bytes of every allocation lie in the mapping of its slab,
  -- which is on the list.
  pub shm_alloc_init-IsMapped :
      (a : ℕ) → a < s.next_alloc → (has (s.allocs a).sha_slab s.slab_list ≡ true) × IsMapped s a
  shm_alloc_init-IsMapped a p =
      let v = sane in
      let l = v.owned a p in
      (l, ground (arith, v.inside a p, v.within (s.allocs a).sha_slab l, v.pointed a p))

  -- From shm_alloc_init on, after any calls that returned, of which none asks for a size that wraps
  -- around or frees what is not in use: no two allocations of one slab overlap.
  pub shm_alloc_init-IsApart :
      (a b : ℕ)
      → a < s.next_alloc
      → b < s.next_alloc
      → (a == b) ≡ false
      → (s.allocs a).sha_slab ≡ (s.allocs b).sha_slab
      → IsApart (s.allocs a) (s.allocs b)
  shm_alloc_init-IsApart a b p q d e =
      let v = sane in
      is_apart-IsApart (s.allocs a) (s.allocs b) (s.slabs (s.allocs a).sha_slab).shm_m
        (v.pointed a p)
        (v.pointed b q ∙ ap (λ k. (s.slabs k).shm_m + (s.allocs b).sha_offset) (sym e))
        (v.apart a b p q d (ground (arith, e)))

  -- From shm_alloc_init on, after any calls that returned, of which none asks for a size that wraps
  -- around or frees what is not in use: the count of every slab on the list is the length of its free
  -- list, and what is on that list are exactly the allocations of the slab that are not active.
  pub shm_alloc_init-counted :
      (k : ℕ)
      → has k s.slab_list ≡ true
      → ((s.slabs k).free_list_cnt ≡ length (s.slabs k).free_list)
        × ((a : ℕ)
            → has a (s.slabs k).free_list ≡ (
                ltb a s.next_alloc
                && ((s.allocs a).sha_slab == k)
                && not (s.allocs a).sha_isactive))
  shm_alloc_init-counted k l =
      let v = sane in
      (
        v.counted k l,
        λ a. elim (Bool-cases (has a (s.slabs k).free_list)) [
          | inl y ↦ ground (arith, y, v.free k a l y)
          | inr n ↦
              elim (Bool-cases (
                ltb a s.next_alloc
                && ((s.allocs a).sha_slab == k)
                && not (s.allocs a).sha_isactive)) [
                  | inl y ↦
                      let e : (s.allocs a).sha_slab ≡ k = ground (arith, y) in
                      let f =
                        ap (λ j. has a (s.slabs j).free_list) (sym e)
                        ∙ v.idle a (ground (arith, y)) (ground (arith, y)) in
                      ground (arith, f, n)
                  | inr m ↦ n ∙ sym m
                ]
        ],
      )
