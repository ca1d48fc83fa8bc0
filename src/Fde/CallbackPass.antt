-- ===== src/Fde/CallbackPass.antt =====
-- fde_cb_runloop of lib/libiapp/fde.c: one pass over the callbacks that were queued before it.
pub mod Run
use libiapp.Base.{
  ℕ, zero, suc, ◌+◌, ◌%◌, ◌^◌, ◌≤◌, ◌<◌, ◌≡◌, refl, sym, ap, ◌∙◌, ◌≢◌, inl, inr, Bool, true, false,
  ◌||◌, Option, none, some, List, [], ◌∷◌, ◌++◌, append_assoc, append-nil, arith, ◌==◌,
  if◌then◌else◌, Bool-cases, length, has, remove, Distinct, has-append, has-snoc, has-remove,
  remove-append, remove_absent, remove-Sublist, remove-append_both, Distinct-append, Distinct-parts,
  has_head, has_nil, ℤ, length-Sublist, ==_iff, remove-head,
}
use mathlib.Core.Option.{some-injective}
use mathlib.Core.Path.{subst}
use mathlib.Core.List.{Sublist, eq-nil_of_sublist-nil}
use mathlib.Core.List.Sublist
use libiapp.Fde.Event.{FdeHead, FdeType, Timeval, timer, is_callback, update}
use libiapp.Fde.Register.{fde_ctx_new, fde_add, fde_delete, fde_free, fde_create}
use libiapp.Fde.Timeout.{fde_add_timeout}
use libiapp.Fde.Loop.{
  Step, adds, adds_timeout, deletes, frees, creates, Reach, here, next_call, Program, fire, cb_loop,
  next_genid, fde_cb_runloop,
}
use libiapp.Fde.Invariant.{IsSound, fde_delete-IsSound}
use libiapp.Fde.Soundness.{Step-IsSound, Reach-IsSound}
use libiapp.Fde.Effects.{
  Queued, queues, Unqueued, fde_add-Queued, fde_add_timeout-Queued, fde_delete-Unqueued,
  fde_free-Unqueued,
}

-- Between passes every queued callback carries the loop's generation, a 32-bit number.
pub record IsCurrent (h : FdeHead) : Type 0 where
  pub stamp : (j : ℕ) → has j h.f_cb_head ≡ true → (h.fdes j).f_cb_genid ≡ h.f_cb_genid
  pub bounded : h.f_cb_genid < 2 ^ 32

-- Within a pass over generation `cur` the queue is `old`, still to be called, then `new`.
pub record IsPass (cur : ℕ) (h : FdeHead) (old new : List ℕ) : Type 0 where
  pub queue : h.f_cb_head ≡ old ++ new
  pub of_old : (j : ℕ) → has j old ≡ true → (h.fdes j).f_cb_genid ≡ cur
  pub of_new : (j : ℕ) → has j new ≡ true → (h.fdes j).f_cb_genid ≡ h.f_cb_genid
  pub moved : h.f_cb_genid ≢ cur
  pub bounded : h.f_cb_genid < 2 ^ 32

-- The counter plays no part in the invariant.
pub next_genid-IsSound :
    (h : FdeHead) → IsSound h → IsSound (record h { f_cb_genid = (h.f_cb_genid + 1) % 2 ^ 32 })
next_genid-IsSound h v = record {
  active = v.active;
  callbacks = v.callbacks;
  timers = v.timers;
  active_once = v.active_once;
  callbacks_once = v.callbacks_once;
  timers_once = v.timers_once;
  alive = v.alive;
  made = v.made;
  typed = v.typed;
  room = v.room;
}

-- A later state of the same pass, in which some of `old` may be gone.
abbrev pub Later : ℕ → FdeHead → List ℕ → Type 0
Later cur g old = (old' : List ℕ) × (new' : List ℕ) × IsPass cur g old' new' × Sublist old' old

module _ {cur : ℕ} {h : FdeHead} {old new : List ℕ} (v : IsSound h) (s : IsPass cur h old new) where
  -- A callback that is not active stands in neither part.
  pub not_queued : (i : ℕ) → (h.fdes i).is_active ≡ false → (has i old || has i new) ≡ false
  not_queued i a = ground (arith, v.callbacks i, s.queue, has-append i old new)

  pub Queued-IsPass :
      {g : FdeHead} (i : ℕ) (b : Bool)
      → Queued h g i b
      → (b ≡ true → (h.fdes i).is_active ≡ false)
      → (new' : List ℕ) × IsPass cur g old new'
  Queued-IsPass i true q a = (
    new ++ i ∷ [],
    record {
      queue = q.list ∙ ap (λ l. l ++ i ∷ []) s.queue ∙ append_assoc old new (i ∷ []);
      of_old = λ j m. ground (arith, q.stamp j, s.of_old j, not_queued i (a refl), ==_iff i j);
      of_new = λ j m. ground (arith, q.stamp j, s.of_new j, has-snoc j i new, q.counter);
      moved = ground (arith, q.counter, s.moved);
      bounded = ground (arith, q.counter, s.bounded);
    },
  )
  Queued-IsPass i false q a = (
    new,
    record {
      queue = q.list ∙ s.queue;
      of_old = λ j m. ground (arith, q.stamp j, s.of_old j);
      of_new = λ j m. ground (arith, q.stamp j, s.of_new j, q.counter);
      moved = ground (arith, q.counter, s.moved);
      bounded = ground (arith, q.counter, s.bounded);
    },
  )

  pub Unqueued-IsPass :
      {g : FdeHead} (i : ℕ) → Unqueued h g i → IsPass cur g (remove i old) (remove i new)
  Unqueued-IsPass i q =
      let apart : Distinct (old ++ new) = subst Distinct s.queue v.callbacks_once in
      let once : Distinct old × Distinct new = Distinct-parts old new apart in
      record {
        queue =
            q.list
            ∙ ap (remove i) s.queue
            ∙ remove-append_both i old new (Distinct-append i old new apart);
        of_old = λ j m. ground (arith, q.stamp j, s.of_old j, has-remove j i old once.0);
        of_new = λ j m. ground (arith, q.stamp j, s.of_new j, has-remove j i new once.1, q.counter);
        moved = ground (arith, q.counter, s.moved);
        bounded = ground (arith, q.counter, s.bounded);
      }

  pub create-IsPass :
      (calloc : Bool) (note_eof : ℕ) (fd : ℤ) (t : FdeType) (persist : Bool) (cb : ℕ)
      → IsPass cur (fde_create calloc note_eof h fd t persist cb).0 old new
  unfolding fde_create
  create-IsPass false note_eof fd t persist cb = s
  create-IsPass true note_eof fd t persist cb = record {
    queue = ground (arith, s.queue);
    of_old = λ j m.
        ground
          (arith, s.of_old j, v.callbacks j, v.alive j, v.made j, s.queue, has-append j old new);
    of_new = λ j m.
        ground
          (arith, s.of_new j, v.callbacks j, v.alive j, v.made j, s.queue, has-append j old new);
    moved = ground (arith, s.moved);
    bounded = ground (arith, s.bounded);
  }

pub pass_over : {cur : ℕ} {h : FdeHead} {new : List ℕ} → IsPass cur h [] new → IsCurrent h
pass_over s = record {
  stamp = λ j m. s.of_new j (subst (λ l. has j l ≡ true) s.queue m);
  bounded = s.bounded;
}

-- Whatever one call of the API does, the pass goes on with no more to do than before.
pub Step-Later :
    {cur : ℕ} {h g : FdeHead} {old new : List ℕ}
    → IsSound h
    → IsPass cur h old new
    → Step h g
    → Later cur g old
Step-Later {h} {old} v s (adds i f) =
    let (new', s') = Queued-IsPass v s i (queues h i) (fde_add-Queued h i) (λ e. ground arith) in
    (old, new', s', Sublist.refl old)
Step-Later {h} {old} v s (adds_timeout i tv f t) =
    let (new', s') = Queued-IsPass v s i false (fde_add_timeout-Queued h i tv) (λ e. cc) in
    (old, new', s', Sublist.refl old)
Step-Later {h} {old} {new} v s (deletes i f) = (
  remove i old,
  remove i new,
  Unqueued-IsPass v s i (fde_delete-Unqueued h i v),
  remove-Sublist i old,
)
Step-Later {h} {old} {new} v s (frees i f) = (
  remove i old,
  remove i new,
  Unqueued-IsPass v s i (fde_free-Unqueued h i v),
  remove-Sublist i old,
)
Step-Later {old} {new} v s (creates calloc note_eof fd t persist cb) =
    (old, new, create-IsPass v s calloc note_eof fd t persist cb, Sublist.refl old)

pub Reach-Later :
    {cur : ℕ} {h g : FdeHead} {old new : List ℕ}
    → IsSound h
    → IsPass cur h old new
    → Reach h g
    → Later cur g old
Reach-Later {old} {new} v s here = (old, new, s, Sublist.refl old)
Reach-Later v s (next_call r st) =
    let (old', new', s', sub) = Reach-Later v s r in
    let (old'', new'', s'', sub') = Step-Later (Reach-IsSound r v) s' st in
    (old'', new'', s'', Sublist.trans sub' sub)

-- Between passes, calls of the API leave the queue ready for the next one.
pub Reach-IsCurrent : {h g : FdeHead} → IsSound h → IsCurrent h → Reach h g → IsCurrent g
Reach-IsCurrent {h} {g} v c r =
    let s : IsPass (suc h.f_cb_genid) h [] h.f_cb_head = record {
      queue = refl;
      of_old = λ j m. cc (has_nil j);
      of_new = c.stamp;
      moved = omega arith;
      bounded = c.bounded;
    } in
    let (old, new, s', kept) = Reach-Later v s r in
    let e : old ≡ [] = eq-nil_of_sublist-nil kept in
    pass_over (subst (λ l. IsPass (suc h.f_cb_genid) g l new) e s')

-- Sound, and ready for a pass over the callbacks.
pub record IsReady (h : FdeHead) : Type 0 where
  pub sound : IsSound h
  pub current : IsCurrent h

pub Reach-IsReady : {h g : FdeHead} → Reach h g → IsReady h → IsReady g
Reach-IsReady r v = record {
  sound = Reach-IsSound r v.sound;
  current = Reach-IsCurrent v.sound v.current r;
}

empty_IsReady : (h : FdeHead) → fde_ctx_new true true ≡ some h → IsReady h
unfolding fde_ctx_new has
empty_IsReady h e = subst IsReady (some-injective _ _ e) (record {
  sound = record {
    active = λ i. refl;
    callbacks = λ i. refl;
    timers = λ i. refl;
    active_once = tt;
    callbacks_once = tt;
    timers_once = tt;
    alive = λ i a. cc;
    made = λ i l. refl;
    typed = λ i a. cc;
    room = omega arith;
  };
  current = record { stamp = λ i a. cc; bounded = omega arith };
})

-- Every state that calls of the API lead to from a new event loop is sound and ready for the next
-- pass over the callbacks.
pub fde_ctx_new-IsReady : {h g : FdeHead} → fde_ctx_new true true ≡ some h → Reach h g → IsReady g
fde_ctx_new-IsReady {h} e r = Reach-IsReady r (empty_IsReady h e)
