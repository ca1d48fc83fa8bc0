-- ===== src/Fde/TimerPass.antt =====
-- fde_t_runloop of lib/libiapp/fde.c: one pass over the timers that are due.
pub mod Run
use libiapp.Base.{
  ℕ, zero, suc, ◌+◌, ◌≤◌, ◌<◌, ◌≡◌, refl, ◌⊎◌, inl, inr, Bool, true, false, ◌&&◌, ◌||◌, not, Option,
  none, some, List, [], ◌∷◌, arith, ◌==◌, if◌then◌else◌, Bool-cases, length, has, remove,
  remove_absent, Distinct, ==_iff, ℤ, has_head,
}
use mathlib.Core.Path.{subst}
use libiapp.Fde.Event.{
  Fde, FdeHead, FdeType, none_type, read, write, callback, signal, timer, aio, user, Timeval,
  is_timer, update,
}
use libiapp.Fde.Kq.{fde_kq_push, add_flags, delete_flags}
use libiapp.Fde.Register.{
  fde_add, add_as, fde_delete, delete_as, fde_free, fde_create, fde_rw_add, fde_ue_add, fde_cb_add,
  fde_rw_delete, fde_ue_delete, fde_cb_delete, fde_t_delete,
}
use libiapp.Fde.Timeout.{
  timeval_cmp, lt_zero, le_zero, ge_zero, last, insert_after, insert_timer, fde_add_timeout,
}
use libiapp.Fde.TimerQueue.{insert_timer-cons, has-last}
use libiapp.Fde.Loop.{
  Step, adds, adds_timeout, deletes, frees, creates, Reach, here, next_call, Program, fire,
  fde_t_runloop,
}
use libiapp.Fde.Invariant.{IsSound, fde_delete-IsSound}
use libiapp.Fde.Soundness.{Step-IsSound, Reach-IsSound}

-- How many timers of a queue are due.
unfoldable pub due_count : Timeval → (ℕ → Fde) → List ℕ → ℕ
due_count now m [] = 0
due_count now m (n ∷ xs) =
    (if lt_zero (timeval_cmp now (m n).tv) then 0 else 1) + due_count now m xs

abbrev pub due : Timeval → FdeHead → ℕ
due now h = due_count now h.fdes h.f_t_head

module _ (now : Timeval) (m : ℕ → Fde) where
  due_count-remove : (i : ℕ) (xs : List ℕ) → due_count now m (remove i xs) ≤ due_count now m xs
  unfolding due_count remove
  due_count-remove i [] = omega arith
  due_count-remove i (x ∷ xs) = ground (arith, due_count-remove i xs)

  due_count-insert_after :
      (k i : ℕ) (xs : List ℕ)
      → lt_zero (timeval_cmp now (m i).tv) ≡ true
      → due_count now m (insert_after k i xs) ≡ due_count now m xs
  unfolding due_count insert_after
  due_count-insert_after k i [] h = refl
  due_count-insert_after k i (x ∷ xs) h = ground (arith, due_count-insert_after k i xs)

  -- A timer that is not yet due adds nothing.
  pub due_count-insert_timer :
      (tv : Timeval) (i : ℕ) (xs : List ℕ)
      → lt_zero (timeval_cmp now (m i).tv) ≡ true
      → due_count now m (insert_timer m tv i xs) ≡ due_count now m xs
  unfolding due_count insert_timer
  due_count-insert_timer tv i [] h = ground arith
  due_count-insert_timer tv i (n ∷ rest) h =
      rw insert_timer-cons (ground (arith, due_count-insert_after (last n rest) i (n ∷ rest)))

-- Only the times of the queued timers matter.
pub due_count_same :
    (now : Timeval) (m m' : ℕ → Fde) (xs : List ℕ)
    → ((j : ℕ) → has j xs ≡ true → (m' j).tv ≡ (m j).tv)
    → due_count now m' xs ≡ due_count now m xs
unfolding due_count has
due_count_same now m m' [] h = refl
due_count_same now m m' (x ∷ xs) h =
    ground (arith, h x, due_count_same now m m' xs (λ j a. h j (ground arith)))

-- A call that leaves the timers alone, or takes one off.
pub record Fewer (h g : FdeHead) (i : ℕ) : Type 0 where
  pub list : g.f_t_head ≡ (
      if (h.fdes i).is_active && is_timer (h.fdes i).f_type
      then remove i h.f_t_head
      else h.f_t_head)
  pub times : (j : ℕ) → (g.fdes j).tv ≡ (h.fdes j).tv

pub Fewer-due : (now : Timeval) {h g : FdeHead} (i : ℕ) → Fewer h g i → due now g ≤ due now h
Fewer-due now {h} {g} i f = ground (
  arith,
  f.list,
  due_count-remove now h.fdes i h.f_t_head,
  due_count_same now h.fdes g.fdes (remove i h.f_t_head) (λ j a. f.times j),
  due_count_same now h.fdes g.fdes h.f_t_head (λ j a. f.times j),
)

module _ (h : FdeHead) (i : ℕ) where
  pub add_as-times :
      (t : FdeType)
      → ((add_as t h i).f_t_head ≡ h.f_t_head)
        × ((j : ℕ) → ((add_as t h i).fdes j).tv ≡ (h.fdes j).tv)
  unfolding add_as fde_ue_add fde_rw_add fde_kq_push add_flags fde_cb_add
  add_as-times callback = (ground arith, λ j. ground arith)
  add_as-times _ = (ground arith, λ j. ground arith)

  delete_as-Fewer : (t : FdeType) → (h.fdes i).f_type ≡ t → Fewer h (delete_as t h i) i
  unfolding delete_as fde_rw_delete fde_ue_delete fde_cb_delete fde_t_delete fde_kq_push
      delete_flags
  delete_as-Fewer timer e = record { list = ground arith; times = λ j. ground arith }
  delete_as-Fewer _ e = record { list = ground arith; times = λ j. ground arith }

  pub fde_delete-Fewer : Fewer h (fde_delete h i) i
  unfolding fde_delete
  fde_delete-Fewer = delete_as-Fewer (h.fdes i).f_type refl

  pub fde_free-Fewer : Fewer h (fde_free h i) i
  unfolding fde_free update
  fde_free-Fewer = record {
    list = ground (arith, fde_delete-Fewer.list);
    times = λ j. ground (arith, fde_delete-Fewer.times j, fde_delete-Fewer.times i);
  }
