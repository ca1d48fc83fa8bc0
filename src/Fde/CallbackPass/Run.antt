-- ===== src/Fde/CallbackPass/Run.antt =====
-- The loop of fde_cb_runloop in lib/libiapp/fde.c, run over any program: what it calls, and that it
-- ends.
use libiapp.Base.{
  ℕ, zero, suc, ◌+◌, ◌%◌, ◌^◌, ◌≤◌, ◌<◌, ◌≡◌, refl, sym, ap, ◌∙◌, true, false, Option, some, List,
  [], ◌∷◌, ◌++◌, append-nil, arith, ◌==◌, length, has_head, has_nil, length-Sublist, remove-head,
}
use mathlib.Core.Path.{subst}
use mathlib.Core.List.{Sublist}
use mathlib.Core.List.Sublist
use libiapp.Fde.Event.{FdeHead, Timeval, timer}
use libiapp.Fde.Register.{fde_add, fde_delete}
use libiapp.Fde.Timeout.{fde_add_timeout}
use libiapp.Fde.Loop.{
  adds, adds_timeout, Reach, here, next_call, Program, fire, cb_loop, next_genid, fde_cb_runloop,
}
use libiapp.Fde.Invariant.{IsSound, fde_delete-IsSound}
use libiapp.Fde.Soundness.{Reach-IsSound}
use libiapp.Fde.Effects.{queues, fde_add-Queued, fde_add_timeout-Queued, fde_delete-Unqueued}
use libiapp.Fde.CallbackPass.{
  pass_over, IsCurrent, IsPass, Queued-IsPass, Unqueued-IsPass, Reach-Later, next_genid-IsSound,
}

module _ {W : Type 0} (p : Program W) where
  open p use {head, set_head, call, head-set_head, call-Reach}

  -- A callback leaves a sound loop sound.
  pub fire-Reach : (i : ℕ) (h : FdeHead) (w : W) → Reach h (head (fire p i (set_head h w)))
  unfolding fire
  fire-Reach i h w =
      subst (λ g. Reach g (head (fire p i (set_head h w)))) (head-set_head h w)
        (call-Reach _ i (set_head h w))

  -- The pass ends, and what it called stands in the relation `R` to `queue`.
  abbrev pub Passed : (List ℕ → List ℕ → Type 0) → List ℕ → Option (List ℕ × W) → Type 0
  Passed R queue r =
      (fired : List ℕ) × (w : W) × (r ≡ some (fired, w))
      × R fired queue
      × IsSound (head w)
      × IsCurrent (head w)

  -- The three ways through the body of the loop.
  cb_loop_empty :
      (fuel cur : ℕ) (w : W) → (head w).f_cb_head ≡ [] → cb_loop p (suc fuel) cur w ≡ some ([], w)
  unfolding cb_loop
  cb_loop_empty fuel cur w e = rw (e, cb_loop)

  cb_loop_stop :
      (fuel cur n : ℕ) (w : W) (rest : List ℕ)
      → (head w).f_cb_head ≡ n ∷ rest
      → (((head w).fdes n).f_cb_genid == cur) ≡ false
      → cb_loop p (suc fuel) cur w ≡ some ([], w)
  unfolding cb_loop
  cb_loop_stop fuel cur n w rest e g = rw (e, cb_loop) (rw g)

  cb_loop-fire :
      (fuel cur i : ℕ) (w w' : W) (rest fired : List ℕ)
      → (head w).f_cb_head ≡ i ∷ rest
      → (((head w).fdes i).f_cb_genid == cur) ≡ true
      → cb_loop p fuel cur (fire p i (set_head (fde_delete (head w) i) w)) ≡ some (fired, w')
      → cb_loop p (suc fuel) cur w ≡ some (i ∷ fired, w')
  unfolding cb_loop
  cb_loop-fire fuel cur i w w' rest fired e g r = rw (e, cb_loop) (rw g (rw r))

-- The part of a pass that depends on what the callbacks may do: `R` relates what is left of the
-- queue to what was there.
pub record Keeps {W : Type 0} (p : Program W) (R : List ℕ → List ℕ → Type 0) : Type 0 where
  pub same : (xs : List ℕ) → R xs xs
  pub onward : {xs ys zs : List ℕ} → R xs ys → R ys zs → R xs zs
  pub behind : (x : ℕ) {xs ys : List ℕ} → R xs ys → R (x ∷ xs) (x ∷ ys)
  pub shorter : {xs ys : List ℕ} → R xs ys → length xs ≤ length ys
  pub later :
      (i : ℕ) (h : FdeHead) (w : W) {cur : ℕ} {old new : List ℕ}
      → IsSound h
      → IsPass cur h old new
      → (old' : List ℕ) × (new' : List ℕ) × IsPass cur
          (p.head (fire p i (p.set_head h w)))
          old'
          new'
        × R old' old

module _ {W : Type 0} (p : Program W) {R : List ℕ → List ℕ → Type 0} (k : Keeps p R) where
  open p use {head, set_head, head-set_head}

  cb_loop-Passed :
      (fuel cur : ℕ) (w : W) (old new : List ℕ)
      → IsSound (head w)
      → IsPass cur (head w) old new
      → length old < fuel
      → Passed p R old (cb_loop p fuel cur w)
  cb_loop-Passed zero cur w old new v s l = absurd (omega arith)
  cb_loop-Passed (suc fuel) cur w [] [] v s l =
      ([], w, cb_loop_empty p fuel cur w s.queue, k.same [], v, pass_over s)
  cb_loop-Passed (suc fuel) cur w [] (n ∷ new) v s l =
      let late : (((head w).fdes n).f_cb_genid == cur) ≡ false =
        ground (arith, s.of_new n (has_head n new), s.moved) in
      ([], w, cb_loop_stop p fuel cur n w new s.queue late, k.same [], v, pass_over s)
  cb_loop-Passed (suc fuel) cur w (i ∷ old) new v s l =
      let h = head w in
      let deleted = Unqueued-IsPass v s i (fde_delete-Unqueued h i v) in
      let sound = fde_delete-IsSound i v in
      let (old', new', s', kept) = k.later i (fde_delete h i) w sound deleted in
      let kept' : R old' old = subst (R old') (remove-head i old) kept in
      let shorter = k.shorter kept' in
      let v'' = Reach-IsSound (fire-Reach p i (fde_delete h i) w) sound in
      let (fired, w', e, kept'', v', c) =
        cb_loop-Passed fuel cur _ old' new' v'' s' (omega arith) in
      let now : (((head w).fdes i).f_cb_genid == cur) ≡ true =
        ground (arith, s.of_old i (has_head i old)) in
      (
        i ∷ fired,
        w',
        cb_loop-fire p fuel cur i w w' (old ++ new) fired s.queue now e,
        k.behind i (k.onward kept'' kept'),
        v',
        c,
      )

  cb_runloop-Passed :
      (fuel : ℕ) (w : W)
      → IsSound (head w)
      → IsCurrent (head w)
      → length (head w).f_cb_head < fuel
      → Passed p R (head w).f_cb_head (fde_cb_runloop p fuel w)
  unfolding fde_cb_runloop next_genid
  cb_runloop-Passed fuel w v c l =
      let h = head w in
      let g : FdeHead = record h { f_cb_genid = (h.f_cb_genid + 1) % 2 ^ 32 } in
      let e = head-set_head g w in
      let s : IsPass h.f_cb_genid g h.f_cb_head [] = record {
        queue = sym (append-nil h.f_cb_head);
        of_old = c.stamp;
        of_new = λ j m. cc (has_nil j);
        moved = omega (arith, c.bounded);
        bounded = omega arith;
      } in
      cb_loop-Passed fuel h.f_cb_genid (set_head g w) h.f_cb_head []
        (subst IsSound (sym e) (next_genid-IsSound h v))
        (subst (λ k. IsPass h.f_cb_genid k h.f_cb_head []) (sym e) s) l

-- Calls of the API that take nothing off a queue.
pub data Adds (h : FdeHead) : FdeHead → Type 0 where
  nothing : Adds h h
  and_add : {g : FdeHead} → Adds h g → (i : ℕ) → (g.fdes i).allocated ≡ true → Adds h (fde_add g i)
  and_timeout :
      {g : FdeHead}
      → Adds h g
      → (i : ℕ) (tv : Timeval) → (g.fdes i).allocated ≡ true
      → (g.fdes i).f_type ≡ timer
      → Adds h (fde_add_timeout g i tv)

Adds-Reach : {h g : FdeHead} → Adds h g → Reach h g
Adds-Reach nothing = here
Adds-Reach (and_add a i f) = next_call (Adds-Reach a) (adds i f)
Adds-Reach (and_timeout a i tv f t) = next_call (Adds-Reach a) (adds_timeout i tv f t)

Adds-IsPass :
    {cur : ℕ} {h g : FdeHead} {old new : List ℕ}
    → IsSound h
    → IsPass cur h old new
    → Adds h g
    → (new' : List ℕ) × IsPass cur g old new'
Adds-IsPass {new} v s nothing = (new, s)
Adds-IsPass v s (and_add {g} a i f) =
    let (new', s') = Adds-IsPass v s a in
    Queued-IsPass (Reach-IsSound (Adds-Reach a) v) s' i (queues g i) (fde_add-Queued g i)
      (λ e. ground arith)
Adds-IsPass v s (and_timeout {g} a i tv f t) =
    let (new', s') = Adds-IsPass v s a in
    Queued-IsPass (Reach-IsSound (Adds-Reach a) v) s' i false (fde_add_timeout-Queued g i tv)
      (λ e. cc)

module _ {W : Type 0} (p : Program W) where
  open p use {head, set_head, call, head-set_head}

  sublists : Keeps p Sublist
  sublists = record {
    same = Sublist.refl;
    onward = Sublist.trans;
    behind = λ x s. Sublist.cons-cons x s;
    shorter = length-Sublist;
    later = λ i h w v s. Reach-Later v s (fire-Reach p i h w);
  }

  -- On a sound loop that is ready for a pass, and whatever calls of the API the callbacks make,
  -- fde_cb_runloop ends, given one unit of fuel more than callbacks are queued. It calls only
  -- callbacks that were queued before it started, each at most once and in the order of the queue;
  -- one that is queued during the pass, and then has the new generation, waits for the next pass.
  -- The loop is left sound and ready for that pass.
  pub fde_cb_runloop-Passed :
      (fuel : ℕ) (w : W)
      → IsSound (head w)
      → IsCurrent (head w)
      → length (head w).f_cb_head < fuel
      → Passed p Sublist (head w).f_cb_head (fde_cb_runloop p fuel w)
  fde_cb_runloop-Passed = cb_runloop-Passed p sublists

  module _ (only_adds : (c i : ℕ) (w : W) → Adds (head w) (head (call c i w))) where
    fire-Adds : (i : ℕ) (h : FdeHead) (w : W) → Adds h (head (fire p i (set_head h w)))
    unfolding fire
    fire-Adds i h w =
        subst (λ g. Adds g (head (fire p i (set_head h w)))) (head-set_head h w)
          (only_adds _ i (set_head h w))

    everything : Keeps p (◌≡◌ {A = List ℕ})
    everything = record {
      same = λ xs. refl;
      onward = λ e f. e ∙ f;
      behind = λ x e. ap (◌∷◌ x) e;
      shorter = λ e. omega (arith, ap length e);
      later = λ i h w {cur} {old} v s.
          let (new', s') = Adds-IsPass v s (fire-Adds i h w) in (old, new', s', refl);
    }

    -- On a sound loop that is ready for a pass, if the callbacks only add events, a pass of
    -- fde_cb_runloop, given one unit of fuel more than callbacks are queued, ends and calls the whole
    -- queue, in its order.
    pub fde_cb_runloop_all :
        (fuel : ℕ) (w : W)
        → IsSound (head w)
        → IsCurrent (head w)
        → length (head w).f_cb_head < fuel
        → Passed p (◌≡◌ {A = List ℕ}) (head w).f_cb_head (fde_cb_runloop p fuel w)
    fde_cb_runloop_all = cb_runloop-Passed p everything
