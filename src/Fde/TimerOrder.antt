-- ===== src/Fde/TimerOrder.antt =====
-- The order of the timer queue of lib/libiapp/fde.c, and when fde_add_timeout keeps it.
use libiapp.Base.{
  ℕ, ◌≡◌, ◌⊎◌, inl, inr, Bool, true, false, List, [], ◌∷◌, arith, if◌then◌else◌, All, has,
  Bool-cases, Distinct, ==_iff, ◌++◌,
}
use mathlib.Core.Path.{subst}
use libiapp.Fde.Event.{Fde, Timeval}
use libiapp.Fde.Timeout.{timeval_cmp, le_zero, ge_zero, last, insert_after, insert_timer}
use libiapp.Fde.TimerQueue.{insert_timer-cons, has-last}

-- timeval_cmp a b <= 0.
abbrev pub not_after : Timeval → Timeval → Bool
not_after a b = le_zero (timeval_cmp a b)

-- Each timer is due no later than those behind it.
abbrev pub IsOrdered : (ℕ → Fde) → List ℕ → Type 0
IsOrdered m [] = Unit {0}
IsOrdered m (n ∷ xs) = All (λ k. not_after (m n).tv (m k).tv ≡ true) xs × IsOrdered m xs

not_after_trans :
    (a b c : Timeval) → not_after a b ≡ true → not_after b c ≡ true → not_after a c ≡ true
unfolding timeval_cmp
not_after_trans a b c p q = ground arith

not_after_total : (a b : Timeval) → not_after a b ≡ false → not_after b a ≡ true
unfolding timeval_cmp
not_after_total a b p = ground arith

ge-not_after : (a b : Timeval) → ge_zero (timeval_cmp a b) ≡ not_after b a
unfolding timeval_cmp
ge-not_after a b = ground arith

All-le :
    (m : ℕ → Fde) (a b : Timeval) (xs : List ℕ)
    → not_after a b ≡ true
    → All (λ k. not_after b (m k).tv ≡ true) xs
    → All (λ k. not_after a (m k).tv ≡ true) xs
All-le m a b [] h all = tt
All-le m a b (x ∷ xs) h all = (not_after_trans a b (m x).tv h all.0, All-le m a b xs h all.1)

All-snoc {ℓ} : (P : ℕ → Type ℓ) (xs : List ℕ) (i : ℕ) → All P xs → P i → All P (xs ++ i ∷ [])
All-snoc P [] i all h = (h, tt)
All-snoc P (x ∷ xs) i all h = (all.0, All-snoc P xs i all.1 h)

insert_after-last :
    (i n : ℕ) (xs : List ℕ)
    → Distinct (n ∷ xs)
    → insert_after (last n xs) i (n ∷ xs) ≡ (n ∷ xs) ++ i ∷ []
unfolding insert_after last has
insert_after-last i n [] d = ground arith
insert_after-last i n (x ∷ xs) d =
    ground (arith, insert_after-last i x xs d.1, has-last x xs, ==_iff (last x xs) n)

module _ (m : ℕ → Fde) (i : ℕ) where
  last-not_after :
      (n : ℕ) (xs : List ℕ)
      → IsOrdered m (n ∷ xs)
      → not_after (m (last n xs)).tv (m i).tv ≡ true
      → All (λ k. not_after (m k).tv (m i).tv ≡ true) (n ∷ xs)
  unfolding last
  last-not_after n [] o h = (h, tt)
  last-not_after n (x ∷ xs) o h =
      let rest = last-not_after x xs o.1 h in
      (not_after_trans (m n).tv (m x).tv (m i).tv o.0.0 rest.0, rest)

  IsOrdered-snoc :
      (xs : List ℕ)
      → IsOrdered m xs
      → All (λ k. not_after (m k).tv (m i).tv ≡ true) xs
      → IsOrdered m (xs ++ i ∷ [])
  IsOrdered-snoc [] o h = (tt, tt)
  IsOrdered-snoc (x ∷ xs) o h =
      (All-snoc (λ k. not_after (m x).tv (m k).tv ≡ true) xs i o.0 h.0, IsOrdered-snoc xs o.1 h.1)

  -- The places that fde_add_timeout gets right: an empty queue, before the first, behind the last,
  -- or just behind the first.
  abbrev pub IsPlaced : List ℕ → Type 0
  IsPlaced [] = Unit {0}
  IsPlaced (n ∷ []) = Unit {0}
  IsPlaced (n ∷ k ∷ rest) =
      (not_after (m i).tv (m k).tv ≡ true) ⊎ (not_after (m (last k rest)).tv (m i).tv ≡ true)

  between :
      (n : ℕ) (rest : List ℕ)
      → IsOrdered m (n ∷ rest)
      → IsPlaced (n ∷ rest)
      → not_after (m i).tv (m n).tv ≡ false
      → not_after (m (last n rest)).tv (m i).tv ≡ false
      → All (λ k. not_after (m i).tv (m k).tv ≡ true) rest
  unfolding last
  between n [] o h behind inside = tt
  between n (k ∷ rest) o (inl h) behind inside = (h, All-le m (m i).tv (m k).tv rest h o.1.0)
  between n (k ∷ rest) o (inr h) behind inside = cc

  IsOrdered-insert :
      (n : ℕ) (rest : List ℕ)
      → Distinct (n ∷ rest)
      → IsOrdered m (n ∷ rest)
      → IsPlaced (n ∷ rest)
      → IsOrdered m (
          if not_after (m i).tv (m n).tv
          then i ∷ n ∷ rest
          else if not_after (m (last n rest)).tv (m i).tv
          then insert_after (last n rest) i (n ∷ rest)
          else n ∷ i ∷ rest)
  IsOrdered-insert n rest d o h = elim (Bool-cases (not_after (m i).tv (m n).tv)) [
    | inl first ↦ rw first ((first, All-le m (m i).tv (m n).tv rest first o.0), o)
    | inr behind ↦ elim (Bool-cases (not_after (m (last n rest)).tv (m i).tv)) [
      | inl end ↦
          rw (behind, end, insert_after-last i n rest d)
            (IsOrdered-snoc (n ∷ rest) o (last-not_after n rest o end))
      | inr inside ↦
          rw (behind, inside)
            (
              (not_after_total (m i).tv (m n).tv behind, o.0),
              (between n rest o h behind inside, o.1),
            )
    ]
  ]

  -- fde_add_timeout keeps the timer queue in order, provided that it lists no event twice and the new
  -- timer is due no later than the first, no earlier than the last, or no later than the second.
  pub insert_timer-IsOrdered :
      (xs : List ℕ)
      → Distinct xs
      → IsOrdered m xs
      → IsPlaced xs
      → IsOrdered m (insert_timer m (m i).tv i xs)
  unfolding insert_timer
  insert_timer-IsOrdered [] d o h = (tt, tt)
  insert_timer-IsOrdered (n ∷ rest) d o h =
      rw (insert_timer-cons, ge-not_after) (IsOrdered-insert n rest d o h)

  -- A new timer that is due after the first two entries and before the last leaves the queue out of
  -- order: it goes just behind the first entry,
  -- in front of the second, which is due earlier.
  pub insert_timer_disorders :
      (n k : ℕ) (rest : List ℕ)
      → not_after (m i).tv (m n).tv ≡ false
      → not_after (m i).tv (m k).tv ≡ false
      → not_after (m (last k rest)).tv (m i).tv ≡ false
      → (insert_timer m (m i).tv i (n ∷ k ∷ rest) ≡ n ∷ i ∷ k ∷ rest)
        × ¬ IsOrdered m (insert_timer m (m i).tv i (n ∷ k ∷ rest))
  unfolding last
  insert_timer_disorders n k rest first second end =
      let e : insert_timer m (m i).tv i (n ∷ k ∷ rest) ≡ n ∷ i ∷ k ∷ rest =
        rw (insert_timer-cons, ge-not_after, first) (rw end) in
      (e, λ o. cc (subst (IsOrdered m) e o).1.0.0)
