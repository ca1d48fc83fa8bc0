-- ===== src/Shm/Sane.antt =====
-- The invariant of the allocator of lib/libiapp/shm_alloc.c, and the parts of its operations.
use libiapp.Base.{
  ℕ, ◌+◌, ◌^◌, ◌≤◌, ◌<◌, ◌≡◌, Bool, true, false, ◌||◌, List, arith, leb, ◌==◌, has, Distinct,
  length, store, has-remove, has-snoc, Distinct-remove, length-remove,
}
use libiapp.Shm.State.{Allocation, ShmState}
use libiapp.Shm.Alloc.{carve, take_free, put_free, is_full, add_slab}

-- The bytes of two allocations of one slab do not overlap.
abbrev pub is_apart : Allocation → Allocation → Bool
is_apart a b =
    leb (a.sha_offset + a.sha_len) b.sha_offset || leb (b.sha_offset + b.sha_len) a.sha_offset

pub record IsSane (s : ShmState) : Type 0 where
  pub owned : (a : ℕ) → a < s.next_alloc → has (s.allocs a).sha_slab s.slab_list ≡ true
  pub inside :
      (a : ℕ)
      → a < s.next_alloc
      → (s.allocs a).sha_offset + (s.allocs a).sha_len ≤ (s.slabs (s.allocs a).sha_slab).shm_curofs
  pub within : (k : ℕ) → has k s.slab_list ≡ true → (s.slabs k).shm_curofs ≤ (s.slabs k).shm_size
  pub apart :
      (a b : ℕ)
      → a < s.next_alloc
      → b < s.next_alloc
      → (a == b) ≡ false
      → ((s.allocs a).sha_slab == (s.allocs b).sha_slab) ≡ true
      → is_apart (s.allocs a) (s.allocs b) ≡ true
  pub pointed :
      (a : ℕ)
      → a < s.next_alloc
      → (s.allocs a).sha_ptr ≡ (s.slabs (s.allocs a).sha_slab).shm_m + (s.allocs a).sha_offset
  pub free :
      (k a : ℕ)
      → has k s.slab_list ≡ true
      → has a (s.slabs k).free_list ≡ true
      → (a < s.next_alloc) × ((s.allocs a).sha_slab ≡ k) × ((s.allocs a).sha_isactive ≡ false)
  pub idle :
      (a : ℕ)
      → a < s.next_alloc
      → (s.allocs a).sha_isactive ≡ false
      → has a (s.slabs (s.allocs a).sha_slab).free_list ≡ true
  pub once : (k : ℕ) → has k s.slab_list ≡ true → Distinct (s.slabs k).free_list
  pub counted :
      (k : ℕ) → has k s.slab_list ≡ true → (s.slabs k).free_list_cnt ≡ length (s.slabs k).free_list
  pub listed : (k : ℕ) → has k s.slab_list ≡ true → k < s.next_slab

module _ (s : ShmState) (v : IsSane s) where
  -- Without wrap-around, a new piece of a slab with room is apart from all others.
  pub carve-IsSane :
      (k size : ℕ)
      → has k s.slab_list ≡ true
      → is_full (s.slabs k) size ≡ false
      → (s.slabs k).shm_size + size < 2 ^ 64
      → IsSane (carve s k size)
  unfolding carve is_full store
  carve-IsSane k size l f w = record {
    owned = λ a h. ground (arith, v.owned a);
    inside = λ a h. ground (arith, v.inside a, v.within k, v.free k a);
    within = λ j h. ground (arith, v.within j);
    apart = λ a b p q n e. ground (arith, v.apart a b, v.inside a, v.inside b);
    pointed = λ a h. ground (arith, v.pointed a);
    free = λ j a g h. ground (arith, v.free j a);
    idle = λ a h i. ground (arith, v.idle a);
    once = λ j h. ground (arith, v.once j);
    counted = λ j h. ground (arith, v.counted j);
    listed = λ j h. ground (arith, v.listed j);
  }

  -- Taking an allocation off its free list and marking it active.
  pub take_free-IsSane :
      (k a : ℕ)
      → has k s.slab_list ≡ true
      → has a (s.slabs k).free_list ≡ true
      → IsSane (take_free s a)
  unfolding take_free store
  take_free-IsSane k a l f = record {
    owned = λ b h. ground (arith, v.owned b);
    inside = λ b h. ground (arith, v.inside b);
    within = λ j h. ground (arith, v.within j);
    apart = λ b c p q n e. ground (arith, v.apart b c);
    pointed = λ b h. ground (arith, v.pointed b);
    free = λ j b g h.
        ground (arith, v.free j b, v.free k a, v.once j, has-remove b a (s.slabs j).free_list);
    idle = λ b h i.
        ground
          (arith, v.idle b, v.free k a, v.once k, v.owned b, has-remove b a (s.slabs k).free_list);
    once = λ j h. ground (arith, v.once j, Distinct-remove a (s.slabs j).free_list);
    counted = λ j h. ground (arith, v.counted j, v.free k a, length-remove a (s.slabs j).free_list);
    listed = λ j h. v.listed j h;
  }

  -- Putting an active allocation on its free list.
  pub put_free-IsSane :
      (a : ℕ) → a < s.next_alloc → (s.allocs a).sha_isactive ≡ true → IsSane (put_free s a)
  unfolding put_free store has
  put_free-IsSane a n i = record {
    owned = λ b h. ground (arith, v.owned b);
    inside = λ b h. ground (arith, v.inside b);
    within = λ j h. ground (arith, v.within j);
    apart = λ b c p q n e. ground (arith, v.apart b c);
    pointed = λ b h. ground (arith, v.pointed b);
    free = λ j b g h. ground (arith, v.free j b, v.owned a);
    idle = λ b h q. ground (arith, v.idle b, v.owned a, v.owned b);
    once = λ j h. ground (arith, v.once j, v.free j a, v.owned a);
    counted = λ j h. ground (arith, v.counted j, v.owned a);
    listed = λ j h. v.listed j h;
  }

  -- A new slab, empty, at an address of its own.
  pub add_slab-IsSane : (fd m size : ℕ) → IsSane (add_slab s fd m size)
  unfolding add_slab store has
  add_slab-IsSane fd m size = record {
    owned =
        λ b h. ground (arith, v.owned b, has-snoc (s.allocs b).sha_slab s.next_slab s.slab_list);
    inside = λ b h. ground (arith, v.inside b, v.owned b, v.listed (s.allocs b).sha_slab);
    within = λ j h. ground (arith, v.within j, has-snoc j s.next_slab s.slab_list);
    apart = λ b c p q n e. v.apart b c p q n e;
    pointed = λ b h. ground (arith, v.pointed b, v.owned b, v.listed (s.allocs b).sha_slab);
    free = λ j b g h. ground (arith, v.free j b, has-snoc j s.next_slab s.slab_list);
    idle = λ b h q. ground (arith, v.idle b, v.owned b, v.listed (s.allocs b).sha_slab);
    once = λ j h. ground (arith, v.once j, has-snoc j s.next_slab s.slab_list);
    counted = λ j h. ground (arith, v.counted j, has-snoc j s.next_slab s.slab_list);
    listed = λ j h. ground (arith, v.listed j, has-snoc j s.next_slab s.slab_list);
  }

  -- The mutex and the resources of the system play no part.
  pub relock-IsSane :
      (b : Bool) (fds maps : List ℕ) → IsSane (record s { locked = b; fds = fds; maps = maps })
  relock-IsSane b fds maps = record {
    owned = v.owned;
    inside = v.inside;
    within = v.within;
    apart = v.apart;
    pointed = v.pointed;
    free = v.free;
    idle = v.idle;
    once = v.once;
    counted = v.counted;
    listed = v.listed;
  }
