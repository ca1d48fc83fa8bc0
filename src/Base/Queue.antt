-- ===== src/Base/Queue.antt =====
-- Tail queues of sys/queue.h, as lists of the addresses that they link: membership, the removal of
-- one entry, and absence of duplicates, in the Boolean form that the tactics read.
use Prim.Native.Nat.{ℕ, suc, ◌+◌, ◌-◌, ◌≤◌}
use mathlib.Core.Path.{◌≡◌, refl}
use mathlib.Core.Bool.{Bool, true, false, ◌||◌, ◌&&◌}
use mathlib.Core.Logic.{∥∥₁_elim}
use mathlib.Core.List.{List, [], ◌∷◌, ◌++◌, Sublist, Sublistᴰ}
use mathlib.Core.List.Sublist
use native.Mathlib.Bridge.{le_prop}
use native.Mathlib.Omega.{arith}
use mathlib.Core.Logic.{inl, inr}
use libiapp.Base.Tests.{ltb, ◌==◌, if◌then◌else◌, ==_iff, Bool-cases}

module _ {ℓ} {A : Type ℓ} where
  abbrev pub length : List A → ℕ
  length [] = 0
  length (x ∷ xs) = suc (length xs)

  pub length-append : (xs ys : List A) → length (xs ++ ys) ≡ length xs + length ys
  length-append [] ys = omega arith
  length-append (x ∷ xs) ys = omega (arith, length-append xs ys)

-- A predicate on every entry; it computes to nested pairs.
abbrev pub All {ℓ κ} : {A : Type ℓ} → (A → Type κ) → List A → Type κ
All P [] = Unit
All P (x ∷ xs) = P x × All P xs

unfoldable pub has : ℕ → List ℕ → Bool
has i [] = false
has i (x ∷ xs) = (x == i) || has i xs

-- TAILQ_REMOVE: unlinks one entry.
unfoldable pub remove : ℕ → List ℕ → List ℕ
remove i [] = []
remove i (x ∷ xs) = if x == i then xs else x ∷ remove i xs

abbrev pub Distinct : List ℕ → Type 0
Distinct [] = Unit {0}
Distinct (x ∷ xs) = (has x xs ≡ false) × Distinct xs

pub has_nil : (i : ℕ) → has i [] ≡ false
unfolding has
has_nil i = refl

pub has_head : (i : ℕ) (xs : List ℕ) → has i (i ∷ xs) ≡ true
unfolding has
has_head i xs = ground arith

pub has-append : (j : ℕ) (xs ys : List ℕ) → has j (xs ++ ys) ≡ (has j xs || has j ys)
unfolding has
has-append j [] ys = refl
has-append j (x ∷ xs) ys = ground (arith, has-append j xs ys)

-- TAILQ_INSERT_TAIL.
pub has-snoc : (j i : ℕ) (xs : List ℕ) → has j (xs ++ i ∷ []) ≡ (if i == j then true else has j xs)
unfolding has
has-snoc j i [] = ground arith
has-snoc j i (x ∷ xs) = ground (arith, has-snoc j i xs)

pub has-remove :
    (j i : ℕ) (xs : List ℕ)
    → Distinct xs
    → has j (remove i xs) ≡ (if i == j then false else has j xs)
unfolding has remove
has-remove j i [] d = ground arith
has-remove j i (x ∷ xs) d = ground (arith, has-remove j i xs d.1)

pub Distinct-snoc : (i : ℕ) (xs : List ℕ) → has i xs ≡ false → Distinct xs → Distinct (xs ++ i ∷ [])
unfolding has
Distinct-snoc i [] h d = (refl, tt)
Distinct-snoc i (x ∷ xs) h d =
    (ground (arith, has-snoc x i xs), Distinct-snoc i xs (ground arith) d.1)

pub Distinct-remove : (i : ℕ) (xs : List ℕ) → Distinct xs → Distinct (remove i xs)
unfolding remove
Distinct-remove i [] d = tt
Distinct-remove i (x ∷ xs) d = ground (arith, Distinct-remove i xs d.1, has-remove x i xs d.1)

pub length-remove : (i : ℕ) (xs : List ℕ) → has i xs ≡ true → suc (length (remove i xs)) ≡ length xs
unfolding has remove
length-remove i [] h = cc
length-remove i (x ∷ xs) h = ground (arith, length-remove i xs)

pub remove-head : (i : ℕ) (xs : List ℕ) → remove i (i ∷ xs) ≡ xs
unfolding remove
remove-head i xs = ground arith

-- Two removals in either order.
pub remove_swap : (a b : ℕ) (xs : List ℕ) → remove a (remove b xs) ≡ remove b (remove a xs)
unfolding remove
remove_swap a b [] = refl
remove_swap a b (x ∷ xs) = ground (arith, remove_swap a b xs)

pub remove_absent : (i : ℕ) (xs : List ℕ) → has i xs ≡ false → remove i xs ≡ xs
unfolding has remove
remove_absent i [] h = refl
remove_absent i (x ∷ xs) h = ground (arith, remove_absent i xs)

pub remove-append :
    (i : ℕ) (xs ys : List ℕ)
    → remove i (xs ++ ys) ≡ (if has i xs then remove i xs ++ ys else xs ++ remove i ys)
unfolding has remove
remove-append i [] ys = refl
remove-append i (x ∷ xs) ys = ground (arith, remove-append i xs ys)

-- What is removed from two disjoint parts.
pub remove-append_both :
    (i : ℕ) (xs ys : List ℕ)
    → (has i xs && has i ys) ≡ false
    → remove i (xs ++ ys) ≡ remove i xs ++ remove i ys
remove-append_both i xs ys d =
    ground (arith, remove-append i xs ys, remove_absent i xs, remove_absent i ys)

pub Distinct-append :
    (i : ℕ) (xs ys : List ℕ) → Distinct (xs ++ ys) → (has i xs && has i ys) ≡ false
unfolding has
Distinct-append i [] ys d = refl
Distinct-append i (x ∷ xs) ys d =
    ground (arith, Distinct-append i xs ys d.1, has-append x xs ys, ==_iff x i)

-- The parts of a sublist, and what it keeps.
pub remove-Sublist : (i : ℕ) (xs : List ℕ) → Sublist (remove i xs) xs
unfolding remove
remove-Sublist i [] = Sublist.refl []
remove-Sublist i (x ∷ xs) = elim (Bool-cases (x == i)) [
  | inl e ↦ rw e (Sublist.cons x (Sublist.refl xs))
  | inr e ↦ rw e (Sublist.cons-cons x (remove-Sublist i xs))
]

length-Sublistᴰ : {xs ys : List ℕ} → Sublistᴰ xs ys → length xs ≤ length ys
length-Sublistᴰ Sublistᴰ.slnil = omega arith
length-Sublistᴰ (Sublistᴰ.cons s) = omega (arith, length-Sublistᴰ s)
length-Sublistᴰ (Sublistᴰ.cons-cons e s) = omega (arith, length-Sublistᴰ s)

pub length-Sublist : {xs ys : List ℕ} → Sublist xs ys → length xs ≤ length ys
length-Sublist s = ∥∥₁_elim s le_prop length-Sublistᴰ

pub Distinct-parts : (xs ys : List ℕ) → Distinct (xs ++ ys) → Distinct xs × Distinct ys
unfolding has
Distinct-parts [] ys d = (tt, d)
Distinct-parts (x ∷ xs) ys d =
    let (dx, dy) = Distinct-parts xs ys d.1 in ((ground (arith, has-append x xs ys), dx), dy)

-- How often a number stands on a list.
unfoldable pub times : ℕ → List ℕ → ℕ
times d [] = 0
times d (x ∷ xs) = (if x == d then 1 else 0) + times d xs

pub times-snoc :
    (d : ℕ) (xs : List ℕ) (x : ℕ) → times d (xs ++ x ∷ []) ≡ times d xs + (if x == d then 1 else 0)
unfolding times
times-snoc d [] x = omega arith
times-snoc d (y ∷ xs) x = omega (arith, times-snoc d xs x)

pub times-remove :
    (d x : ℕ) (xs : List ℕ)
    → has x xs ≡ true
    → times d (remove x xs) + (if x == d then 1 else 0) ≡ times d xs
unfolding times remove has
times-remove d x [] h = cc
times-remove d x (y ∷ xs) h = ground (arith, times-remove d x xs)

-- The same for any list, where the subtraction stops at 0.
pub times-remove_any :
    (d x : ℕ) (xs : List ℕ) → times d (remove x xs) ≡ times d xs - (if x == d then 1 else 0)
unfolding times remove
times-remove_any d x [] = ground arith
times-remove_any d x (y ∷ xs) = ground (arith, times-remove_any d x xs, ==_iff y x, ==_iff x d)

-- What stands on the list at least once.
pub has-times : (d : ℕ) (xs : List ℕ) → has d xs ≡ ltb 0 (times d xs)
unfolding times has
has-times d [] = refl
has-times d (x ∷ xs) = ground (arith, has-times d xs)
