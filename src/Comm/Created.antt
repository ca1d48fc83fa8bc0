-- ===== src/Comm/Created.antt =====
-- The events that comm_create of lib/libiapp/comm.c makes.
use libiapp.Base.{
  ℕ, suc, ◌≤◌, ◌≡◌, ◌⊎◌, refl, sym, ap, ◌∙◌, inl, inr, Bool, true, false, Option, none, some, List,
  [], ◌∷◌, ℤ, arith, ◌==◌, Bool-cases, has, Distinct, length,
}
use mathlib.Core.Path.{subst}
use mathlib.Core.Option.{some-injective}
use libiapp.Fde.Event.{Fde, FdeHead, FdeType, none_type, signal, aio, update}
use libiapp.Fde.Register.{fde_create}
use libiapp.Comm.State.{FdeComm}
use libiapp.Comm.Create.{
  EventSpec, specs, keep_event, create_events, new_comm, conclude, comm_create,
}

-- The queues of the loop and its changes are the same.
pub record Quiet (h g : FdeHead) : Type 0 where
  pub heads : g.f_head ≡ h.f_head
  pub callbacks : g.f_cb_head ≡ h.f_cb_head
  pub timers : g.f_t_head ≡ h.f_t_head
  pub pending : g.pending ≡ h.pending
  pub submitted : g.submitted ≡ h.submitted

pub Quiet-refl : (h : FdeHead) → Quiet h h
Quiet-refl h = record {
  heads = refl;
  callbacks = refl;
  timers = refl;
  pending = refl;
  submitted = refl;
}

pub Quiet-trans : {h k g : FdeHead} → Quiet h k → Quiet k g → Quiet h g
Quiet-trans p q = record {
  heads = q.heads ∙ p.heads;
  callbacks = q.callbacks ∙ p.callbacks;
  timers = q.timers ∙ p.timers;
  pending = q.pending ∙ p.pending;
  submitted = q.submitted ∙ p.submitted;
}

-- The events of `ids` are new since `h`, each of them once, allocated and inactive; nothing else
-- changed.
pub record Grown (h g : FdeHead) (ids : List ℕ) : Type 0 where
  pub quiet : Quiet h g
  pub beyond : (j : ℕ) → has j ids ≡ true → h.next ≤ j
  pub once : Distinct ids
  pub new :
      (j : ℕ) → has j ids ≡ true → ((g.fdes j).allocated ≡ true) × ((g.fdes j).is_active ≡ false)
  pub old : (j : ℕ) → has j ids ≡ false → g.fdes j ≡ h.fdes j

record One (h g : FdeHead) : Type 0 where
  quiet : Quiet h g
  next : g.next ≡ suc h.next
  new :
      (j : ℕ)
      → (h.next == j) ≡ true
      → ((g.fdes j).allocated ≡ true) × ((g.fdes j).is_active ≡ false)
  old : (j : ℕ) → (h.next == j) ≡ false → g.fdes j ≡ h.fdes j

-- One fde_create fails and changes nothing, or makes the event at `next`.
Made : FdeHead → FdeHead × Option ℕ → Type 0
Made h r = ((r.1 ≡ none) × (r.0 ≡ h)) ⊎ ((r.1 ≡ some h.next) × One h r.0)

fde_create-Made :
    (calloc : Bool) (note_eof : ℕ) (h : FdeHead) (fd : ℤ) (t : FdeType) (persist : Bool) (cb : ℕ)
    → Made h (fde_create calloc note_eof h fd t persist cb)
unfolding fde_create update Made
fde_create-Made false note_eof h fd t persist cb = inl (refl, refl)
fde_create-Made true note_eof h fd none_type persist cb = inl (refl, refl)
fde_create-Made true note_eof h fd signal persist cb = inl (refl, refl)
fde_create-Made true note_eof h fd aio persist cb = inl (refl, refl)
fde_create-Made true note_eof h fd _ persist cb = inr (
  refl,
  record {
    quiet = record {
      heads = refl;
      callbacks = refl;
      timers = refl;
      pending = refl;
      submitted = refl;
    };
    next = refl;
    new = λ j e. ground arith;
    old = λ j e. ground arith;
  },
)

nothing-Grown : (h : FdeHead) → Grown h h []
unfolding has
nothing-Grown h = record {
  quiet = Quiet-refl h;
  beyond = λ j e. cc;
  once = tt;
  new = λ j e. cc;
  old = λ j e. refl;
}

One-Grown : (h k g : FdeHead) (ids : List ℕ) → One h k → Grown k g ids → Grown h g (h.next ∷ ids)
unfolding has
One-Grown h k g ids o v = record {
  quiet = Quiet-trans o.quiet v.quiet;
  beyond = λ j e. ground (arith, v.beyond j, o.next);
  once = ground (arith, v.beyond h.next, o.next, v.once);
  new = λ j e. elim (Bool-cases (has j ids)) [
    | inl a ↦ v.new j a
    | inr n ↦
        let (a, b) = o.new j (ground arith) in
        (ap Fde.allocated (v.old j n) ∙ a, ap Fde.is_active (v.old j n) ∙ b)
  ];
  old = λ j e. v.old j (ground arith) ∙ o.old j (ground arith);
}

-- What a run of fde_create calls makes of `n` events.
abbrev pub Run : FdeHead → ℕ → FdeHead × List ℕ × Bool → Type 0
Run h n (g, ids, ok) = Grown h g ids × (ok ≡ true → length ids ≡ n)

keep_event-Run :
    (h : FdeHead) (n : ℕ) (r : FdeHead × Option ℕ) (x : FdeHead × List ℕ × Bool)
    → Made h r
    → Run r.0 n x
    → Run h (suc n) (keep_event r x)
unfolding keep_event Made
keep_event-Run h n (k, none) x (inl (e, f)) v =
    (subst (λ g. Grown h g []) (sym f) (nothing-Grown h), λ a. cc)
keep_event-Run h n (k, some i) (g, ids, ok) (inl (e, f)) v = cc
keep_event-Run h n (k, none) x (inr (e, o)) v = cc
keep_event-Run h n (k, some i) (g, ids, ok) (inr (e, o)) (v, l) = (
  subst (λ j. Grown h g (j ∷ ids)) (sym (some-injective _ _ e)) (One-Grown h k g ids o v),
  λ a. ap suc (l a),
)

pub create_events-Run :
    (calloc : ℕ → Bool) (note_eof n : ℕ) (h : FdeHead) (ss : List EventSpec)
    → Run h (length ss) (create_events calloc note_eof n h ss)
unfolding create_events
create_events-Run calloc note_eof n h [] = (nothing-Grown h, λ e. refl)
create_events-Run calloc note_eof n h (s ∷ ss) =
    keep_event-Run h (length ss) _ _
      (fde_create-Made (calloc n) note_eof h s.fd s.f_type s.persist s.cb)
      (create_events-Run calloc note_eof (suc n) _ ss)

conclude_makes :
    (b : Bool) (h : FdeHead) (fd : ℤ) (close_cb : Option ℕ) (n : ℕ) (x : FdeHead × List ℕ × Bool)
    (c : FdeComm)
    → Run h n x
    → (conclude b h fd close_cb x).1 ≡ some c
    → (ids : List ℕ) × (c ≡ new_comm fd close_cb ids)
      × (length ids ≡ n)
      × Grown h (conclude b h fd close_cb x).0 ids
unfolding conclude
conclude_makes false h fd close_cb n x c r e = cc
conclude_makes true h fd close_cb n (g, ids, true) c (r, l) e =
    (ids, sym (some-injective _ _ e), l refl, r)
conclude_makes true h fd close_cb n (g, ids, false) c r e = cc

-- If comm_create succeeds, the object has ten events, each at an address of its own that
-- fde_create had not given out before, allocated and not active; no other event and no queue of the
-- loop has changed.
pub comm_create_makes :
    (calloc : ℕ → Bool) (note_eof : ℕ) (cb : ℕ → ℕ) (h : FdeHead) (fd : ℤ) (close_cb : Option ℕ)
    (c : FdeComm)
    → (comm_create calloc note_eof cb h fd close_cb).1 ≡ some c
    → (ids : List ℕ) × (c ≡ new_comm fd close_cb ids)
      × (length ids ≡ 10)
      × Grown h (comm_create calloc note_eof cb h fd close_cb).0 ids
unfolding comm_create specs
comm_create_makes calloc note_eof cb h fd close_cb c e =
    conclude_makes (calloc 0) h fd close_cb 10 _ c
      (create_events-Run calloc note_eof 1 h (specs fd cb)) e
