-- ===== src/Fde/TimerQueue.antt =====
-- What fde_add_timeout does to the timer queue of lib/libiapp/fde.c.
use libiapp.Base.{
  ℕ, ◌≡◌, true, false, List, [], ◌∷◌, some, arith, ◌==◌, if◌then◌else◌, has, Distinct,
}
use libiapp.Fde.Event.{Fde, Timeval}
use libiapp.Fde.Timeout.{timeval_cmp, le_zero, ge_zero, last, insert_after, walk, insert_timer}

pub has-last : (n : ℕ) (xs : List ℕ) → has (last n xs) (n ∷ xs) ≡ true
unfolding has last
has-last n [] = ground arith
has-last n (m ∷ xs) = ground (arith, has-last m xs)

has-insert_after :
    (k i j : ℕ) (xs : List ℕ)
    → has k xs ≡ true
    → has j (insert_after k i xs) ≡ (if i == j then true else has j xs)
unfolding has insert_after
has-insert_after k i j [] h = cc
has-insert_after k i j (x ∷ xs) h = ground (arith, has-insert_after k i j xs)

Distinct-insert_after :
    (k i : ℕ) (xs : List ℕ)
    → has k xs ≡ true
    → has i xs ≡ false
    → Distinct xs
    → Distinct (insert_after k i xs)
unfolding has insert_after
Distinct-insert_after k i [] h n d = tt
Distinct-insert_after k i (x ∷ xs) h n d =
    ground (arith, Distinct-insert_after k i xs, has-insert_after k i x xs)

-- The walk stops at the first entry that the new time is after.
pub walk-head :
    (m : ℕ → Fde) (tv : Timeval) (n : ℕ) (rest : List ℕ)
    → le_zero (timeval_cmp tv (m n).tv) ≡ false
    → walk m tv (n ∷ rest) ≡ some n
unfolding walk
walk-head m tv n rest h = ground arith

-- One equation for the insertion, the walk computed away.
pub insert_timer-cons :
    (m : ℕ → Fde) (tv : Timeval) (i n : ℕ) (rest : List ℕ)
    → insert_timer m tv i (n ∷ rest) ≡ (
        if le_zero (timeval_cmp tv (m n).tv)
        then i ∷ n ∷ rest
        else if ge_zero (timeval_cmp tv (m (last n rest)).tv)
        then insert_after (last n rest) i (n ∷ rest)
        else n ∷ i ∷ rest)
unfolding insert_timer insert_after
insert_timer-cons m tv i n rest = ground (arith, walk-head m tv n rest)

pub has-insert_timer :
    (m : ℕ → Fde) (tv : Timeval) (i j : ℕ) (xs : List ℕ)
    → has j (insert_timer m tv i xs) ≡ (if i == j then true else has j xs)
unfolding has insert_timer
has-insert_timer m tv i j [] = ground arith
has-insert_timer m tv i j (n ∷ rest) =
    rw insert_timer-cons
      (ground (arith, has-last n rest, has-insert_after (last n rest) i j (n ∷ rest)))

pub Distinct-insert_timer :
    (m : ℕ → Fde) (tv : Timeval) (i : ℕ) (xs : List ℕ)
    → has i xs ≡ false
    → Distinct xs
    → Distinct (insert_timer m tv i xs)
unfolding has insert_timer
Distinct-insert_timer m tv i [] h d = ground arith
Distinct-insert_timer m tv i (n ∷ rest) h d =
    rw insert_timer-cons
      (ground (arith, has-last n rest, Distinct-insert_after (last n rest) i (n ∷ rest)))
