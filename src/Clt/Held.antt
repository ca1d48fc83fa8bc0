-- ===== src/Clt/Held.antt =====
-- The blocks of memory that the connections of src/clt/clt.c hold.
use libiapp.Base.{
  ℕ, suc, ◌+◌, ◌-◌, ◌≤◌, ◌<◌, ◌≡◌, refl, sym, ap, ◌∙◌, true, false, Option, none, some, List, [],
  ◌∷◌, ◌++◌, arith, ◌==◌, if◌then◌else◌, length, has, remove, Distinct, has-snoc, has-remove,
  Distinct-snoc, Distinct-remove, length-append, length-remove, times, ==_iff, Bool-cases, ◌⊎◌, inl,
  inr,
}
use mathlib.Core.Path.{subst}
use libiapp.Netbuf.State.{nb_alloc_malloc, Netbuf, NetHeap}
use libiapp.Clt.State.{CltConn}

abbrev pub opt_times : ℕ → Option ℕ → ℕ
opt_times d none = 0
opt_times d (some b) = if b == d then 1 else 0

-- A netbuf of malloc(3) is two blocks.
abbrev pub nb_times : ℕ → (ℕ → Netbuf) → Option ℕ → ℕ
nb_times d bufs none = 0
nb_times d bufs (some n) = (if (bufs n).bufptr == d then 1 else 0) + (if n == d then 1 else 0)

-- How often a connection holds a block: as its struct, its read buffer, or in its netbuf.
abbrev pub conn_times : ℕ → (ℕ → Netbuf) → ℕ → CltConn → ℕ
conn_times d bufs c x = (if c == d then 1 else 0) + opt_times d x.r_buf + nb_times d bufs x.nb

-- So for all connections of a list.
unfoldable pub held : ℕ → (ℕ → Netbuf) → (ℕ → CltConn) → List ℕ → ℕ
held d bufs conns [] = 0
held d bufs conns (c ∷ cs) = conn_times d bufs c (conns c) + held d bufs conns cs

-- The netbuf of a connection, if any, was handed out as one of malloc(3).
abbrev pub IsTyped : NetHeap → Option ℕ → Type 0
IsTyped h none = Unit {0}
IsTyped h (some n) = (n < h.next_block) × ((h.bufs n).nb_type ≡ nb_alloc_malloc)

-- The connections of a list of `n` are different blocks of the heap, and the blocks in `live` are theirs and
-- those that `base` counts.
pub record IsKept (n : ℕ) (base : ℕ → ℕ) (cs : List ℕ) (conns : ℕ → CltConn) (h : NetHeap)
    : Type 0 where
  pub counted : n ≡ length cs
  pub distinct : Distinct cs
  pub young : (c : ℕ) → has c cs ≡ true → c < h.next_block
  pub typed : (c : ℕ) → has c cs ≡ true → IsTyped h (conns c).nb
  pub booked : (d : ℕ) → times d h.live ≡ base d + held d h.bufs conns cs

-- Two maps of connections have the same two buffers at an address.
abbrev pub SameBuffers : (ℕ → CltConn) → (ℕ → CltConn) → ℕ → Type 0
SameBuffers conns conns1 c = ((conns1 c).r_buf ≡ (conns c).r_buf) × ((conns1 c).nb ≡ (conns c).nb)

-- A heap that came from another by calls of malloc(3) and free(3).
abbrev pub IsLater : NetHeap → NetHeap → Type 0
IsLater h k = (h.next_block ≤ k.next_block) × ((b : ℕ) → b < h.next_block → k.bufs b ≡ h.bufs b)

IsTyped-IsLater : (h k : NetHeap) (o : Option ℕ) → IsLater h k → IsTyped h o → IsTyped k o
IsTyped-IsLater h k none l t = tt
IsTyped-IsLater h k (some n) l t =
    (omega (arith, l.0), ap (λ (b : Netbuf). b.nb_type) (l.1 n t.0) ∙ t.1)

nb_times-IsLater :
    (d : ℕ) (h k : NetHeap) (o : Option ℕ)
    → IsLater h k
    → IsTyped h o
    → nb_times d k.bufs o ≡ nb_times d h.bufs o
nb_times-IsLater d h k none l t = refl
nb_times-IsLater d h k (some n) l t =
    ap (λ (b : Netbuf). (if b.bufptr == d then 1 else 0) + (if n == d then 1 else 0)) (l.1 n t.0)

module _ (d : ℕ) (h k : NetHeap) (conns conns1 : ℕ → CltConn) where
  held_same :
      (cs : List ℕ)
      → ((c : ℕ) → has c cs ≡ true → SameBuffers conns conns1 c)
      → IsLater h k
      → ((c : ℕ) → has c cs ≡ true → IsTyped h (conns c).nb)
      → held d k.bufs conns1 cs ≡ held d h.bufs conns cs
  unfolding held has
  held_same [] s l t = refl
  held_same (c ∷ cs) s l t =
      let e : has c (c ∷ cs) ≡ true = ground arith in
      let a = ap (opt_times d) (s c e).0 in
      let b = ap (nb_times d k.bufs) (s c e).1 ∙ nb_times-IsLater d h k (conns c).nb l (t c e) in
      omega (arith, a, b, held_same cs (λ b q. s b (to b q)) l (λ b q. t b (to b q)))
    where
      to : (b : ℕ) → has b cs ≡ true → has b (c ∷ cs) ≡ true
      to b q = ground arith

held-snoc :
    (d : ℕ) (bufs : ℕ → Netbuf) (conns : ℕ → CltConn) (cs : List ℕ) (c : ℕ)
    → held d bufs conns (cs ++ c ∷ []) ≡ held d bufs conns cs + conn_times d bufs c (conns c)
unfolding held
held-snoc d bufs conns [] c = omega arith
held-snoc d bufs conns (x ∷ cs) c = omega (arith, held-snoc d bufs conns cs c)

held-remove :
    (d : ℕ) (bufs : ℕ → Netbuf) (conns : ℕ → CltConn) (cs : List ℕ) (c : ℕ)
    → has c cs ≡ true
    → held d bufs conns (remove c cs) + conn_times d bufs c (conns c) ≡ held d bufs conns cs
unfolding held has remove
held-remove d bufs conns [] c p = cc
held-remove d bufs conns (x ∷ cs) c p = ground (arith, held-remove d bufs conns cs c, ==_iff x c)

module _ {n : ℕ} {base : ℕ → ℕ} {cs : List ℕ} {conns : ℕ → CltConn} {h : NetHeap}
    (k : IsKept n base cs conns h) where
  -- A later heap with the same blocks, and connections with the same buffers.
  pub books_unmoved :
      (conns1 : ℕ → CltConn) (m : NetHeap)
      → ((c : ℕ) → has c cs ≡ true → SameBuffers conns conns1 c)
      → IsLater h m
      → ((d : ℕ) → times d m.live ≡ times d h.live)
      → IsKept n base cs conns1 m
  books_unmoved conns1 m s l e = record {
    counted = k.counted;
    distinct = k.distinct;
    young = λ c p. omega (arith, k.young c p, l.0);
    typed = λ c p. IsTyped-IsLater h m (conns1 c).nb l (go c p);
    booked = λ d.
        e d ∙ k.booked d ∙ ap (λ x. base d + x) (sym (held_same d h m conns conns1 cs s l k.typed));
  }
    where
      go : (c : ℕ) → has c cs ≡ true → IsTyped h (conns1 c).nb
      go c p = subst (IsTyped h) (sym (s c p).1) (k.typed c p)

  -- One more connection, at an address that was not given out before.
  pub books_grown :
      (conns1 : ℕ → CltConn) (m : NetHeap) (c : ℕ)
      → ((b : ℕ) → has b cs ≡ true → SameBuffers conns conns1 b)
      → IsLater h m
      → h.next_block ≤ c
      → c < m.next_block
      → IsTyped m (conns1 c).nb
      → ((d : ℕ) → times d m.live ≡ times d h.live + conn_times d m.bufs c (conns1 c))
      → IsKept (suc n) base (cs ++ c ∷ []) conns1 m
  books_grown conns1 m c s l p q t e = record {
    counted = omega (arith, k.counted, length-append cs (c ∷ []));
    distinct = Distinct-snoc c cs fresh k.distinct;
    young = λ b r. elim (among b r) [
      | inl o ↦ omega (arith, k.young b o, l.0)
      | inr w ↦ omega (arith, q)
    ];
    typed = λ b r. elim (among b r) [
      | inl o ↦
          IsTyped-IsLater h m (conns1 b).nb l (subst (IsTyped h) (sym (s b o).1) (k.typed b o))
      | inr w ↦ subst (λ x. IsTyped m (conns1 x).nb) w t
    ];
    booked = λ d.
        e d
        ∙ omega (
          arith,
          k.booked d,
          held-snoc d m.bufs conns1 cs c,
          held_same d h m conns conns1 cs s l k.typed,
        );
  }
    where
      fresh : has c cs ≡ false
      fresh = elim (Bool-cases (has c cs)) [ inl y ↦ ground (arith, k.young c y, p) | inr n ↦ n ]

      among : (b : ℕ) → has b (cs ++ c ∷ []) ≡ true → (has b cs ≡ true) ⊎ (c ≡ b)
      among b r = elim (Bool-cases (has b cs)) [
        | inl y ↦ inl y
        | inr n ↦ inr (ground (arith, has-snoc b c cs, ==_iff c b))
      ]

  -- A connection that gives back its blocks.
  pub books_shrunk :
      (m : NetHeap) (c : ℕ)
      → has c cs ≡ true
      → IsLater h m
      → ((d : ℕ) → times d m.live ≡ times d h.live - conn_times d h.bufs c (conns c))
      → IsKept (n - 1) base (remove c cs) conns m
  books_shrunk m c p l e = record {
    counted = omega (arith, k.counted, length-remove c cs p);
    distinct = Distinct-remove c cs k.distinct;
    young = λ b r. omega (arith, k.young b (of b r), l.0);
    typed = λ b r. IsTyped-IsLater h m (conns b).nb l (k.typed b (of b r));
    booked = λ d. omega (
      arith,
      e d,
      k.booked d,
      held-remove d h.bufs conns cs c p,
      held_same d h m conns conns (remove c cs) (λ b r. (refl, refl)) l (λ b r. k.typed b (of b r)),
    );
  }
    where
      of : (b : ℕ) → has b (remove c cs) ≡ true → has b cs ≡ true
      of b r = ground (arith, has-remove b c cs k.distinct)
