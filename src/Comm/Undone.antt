-- ===== src/Comm/Undone.antt =====
-- comm_create of lib/libiapp/comm.c when it fails.
use libiapp.Base.{
  ℕ, ◌≡◌, refl, sym, ap, ◌∙◌, inl, inr, Bool, true, false, Option, none, List, [], ◌∷◌, ℤ, arith,
  if◌then◌else◌, Bool-cases, has, length,
}
use libiapp.Fde.Event.{Fde, FdeHead, update}
use libiapp.Fde.Register.{fde_free}
use libiapp.Fde.Invariant.{IsSound}
use libiapp.Comm.Create.{specs, free_all, conclude, comm_create}
use libiapp.Comm.Created.{Quiet, Quiet-refl, Quiet-trans, Run, create_events-Run}

-- The loop after the events of `ids` were freed.
record Freed (h g : FdeHead) (ids : List ℕ) : Type 0 where
  quiet : Quiet h g
  gone : (j : ℕ) → (g.fdes j).allocated ≡ (if has j ids then false else (h.fdes j).allocated)

free_one-Freed :
    (h : FdeHead) (i : ℕ)
    → (h.fdes i).is_active ≡ false
    → Freed h (fde_free h i) (i ∷ [])
      × ((j : ℕ) → ((fde_free h i).fdes j).is_active ≡ (h.fdes j).is_active)
unfolding fde_free update has
free_one-Freed h i a = (
  record {
    quiet = rw a (record {
      heads = refl;
      callbacks = refl;
      timers = refl;
      pending = refl;
      submitted = refl;
    });
    gone = λ j. ground arith;
  },
  λ j. ground arith,
)

free_all-Freed :
    (h : FdeHead) (ids : List ℕ)
    → ((j : ℕ) → has j ids ≡ true → (h.fdes j).is_active ≡ false)
    → Freed h (free_all h ids) ids
unfolding free_all has
free_all-Freed h [] q = record { quiet = Quiet-refl h; gone = λ j. refl }
free_all-Freed h (i ∷ ids) q =
    let (one, same) = free_one-Freed h i (q i (ground arith)) in
    let f = free_all-Freed (fde_free h i) ids (λ j e. same j ∙ q j (ground arith)) in
    record {
      quiet = Quiet-trans one.quiet f.quiet;
      gone = λ j. ground (arith, f.gone j, one.gone j);
    }

-- The queues of the loop, its changes and what is allocated are the same.
abbrev pub IsUndone : FdeHead → FdeHead → Type 0
IsUndone h g = Quiet h g × ((j : ℕ) → (g.fdes j).allocated ≡ (h.fdes j).allocated)

conclude_fails :
    (b : Bool) (h : FdeHead) (fd : ℤ) (close_cb : Option ℕ) (n : ℕ) (x : FdeHead × List ℕ × Bool)
    → IsSound h
    → Run h n x
    → (conclude b h fd close_cb x).1 ≡ none
    → IsUndone h (conclude b h fd close_cb x).0
unfolding conclude
conclude_fails false h fd close_cb n x v r e = (Quiet-refl h, λ j. refl)
conclude_fails true h fd close_cb n (g, ids, true) v r e = cc
conclude_fails true h fd close_cb n (g, ids, false) v (r, l) e =
    let f = free_all-Freed g ids (λ j a. (r.new j a).1) in
    (
      Quiet-trans r.quiet f.quiet,
      λ j. elim (Bool-cases (has j ids)) [
        | inl a ↦ f.gone j ∙ (rw a (sym (v.made j (r.beyond j a))))
        | inr a ↦ f.gone j ∙ (rw a (ap Fde.allocated (r.old j a)))
      ],
    )

-- If comm_create fails, for want of memory for the object or for any of its events, a sound loop is
-- left as it was: the queues and the changes for the kernel are the same, and exactly the events
-- that were allocated before still are.
pub comm_create_fails :
    (calloc : ℕ → Bool) (note_eof : ℕ) (cb : ℕ → ℕ) (h : FdeHead) (fd : ℤ) (close_cb : Option ℕ)
    → IsSound h
    → (comm_create calloc note_eof cb h fd close_cb).1 ≡ none
    → IsUndone h (comm_create calloc note_eof cb h fd close_cb).0
unfolding comm_create
comm_create_fails calloc note_eof cb h fd close_cb v e =
    conclude_fails (calloc 0) h fd close_cb (length (specs fd cb)) _ v
      (create_events-Run calloc note_eof 1 h (specs fd cb)) e
