-- ===== src/Fde/Effects.antt =====
-- What fde_add, fde_delete and fde_free of lib/libiapp/fde.c do to the queue of callbacks and to the
-- generation of each event.
use libiapp.Base.{
  ℕ, ◌≡◌, refl, Bool, false, ◌&&◌, not, [], ◌∷◌, ◌++◌, arith, ◌==◌, if◌then◌else◌, remove,
  remove_absent,
}
use libiapp.Fde.Event.{FdeHead, FdeType, callback, is_callback, update, Timeval}
use libiapp.Fde.Register.{
  add_as, fde_add, delete_as, fde_delete, fde_free, fde_rw_add, fde_ue_add, fde_cb_add,
  fde_rw_delete, fde_ue_delete, fde_cb_delete, fde_t_delete,
}
use libiapp.Fde.Kq.{fde_kq_push, add_flags, delete_flags}
use libiapp.Fde.Timeout.{fde_add_timeout}
use libiapp.Fde.Invariant.{IsSound}

-- Does fde_add queue the event as a callback?
abbrev pub queues : FdeHead → ℕ → Bool
queues h i = not (h.fdes i).is_active && is_callback (h.fdes i).f_type

-- `g` has the callbacks of `h`, with `i` behind them if `b` says so, and stamped.
pub record Queued (h g : FdeHead) (i : ℕ) (b : Bool) : Type 0 where
  pub list : g.f_cb_head ≡ (if b then h.f_cb_head ++ i ∷ [] else h.f_cb_head)
  pub stamp :
      (j : ℕ)
      → (g.fdes j).f_cb_genid ≡ (if (i == j) && b then h.f_cb_genid else (h.fdes j).f_cb_genid)
  pub counter : g.f_cb_genid ≡ h.f_cb_genid

-- `g` has the callbacks of `h` less `i`.
pub record Unqueued (h g : FdeHead) (i : ℕ) : Type 0 where
  pub list : g.f_cb_head ≡ remove i h.f_cb_head
  pub stamp : (j : ℕ) → (g.fdes j).f_cb_genid ≡ (h.fdes j).f_cb_genid
  pub counter : g.f_cb_genid ≡ h.f_cb_genid

module _ (h : FdeHead) (i : ℕ) where
  fde_rw_add-Queued : Queued h (fde_rw_add h i) i false
  unfolding fde_rw_add fde_kq_push add_flags
  fde_rw_add-Queued = record {
    list = ground arith;
    stamp = λ j. ground arith;
    counter = ground arith;
  }

  add_as-Queued : (t : FdeType) → (h.fdes i).f_type ≡ t → Queued h (add_as t h i) i (queues h i)
  unfolding add_as fde_ue_add fde_rw_add fde_kq_push add_flags fde_cb_add
  add_as-Queued callback e = record {
    list = ground arith;
    stamp = λ j. ground arith;
    counter = ground arith;
  }
  add_as-Queued _ e = record {
    list = ground arith;
    stamp = λ j. ground arith;
    counter = ground arith;
  }

  pub fde_add-Queued : Queued h (fde_add h i) i (queues h i)
  unfolding fde_add
  fde_add-Queued = add_as-Queued (h.fdes i).f_type refl

  pub fde_add_timeout-Queued : (tv : Timeval) → Queued h (fde_add_timeout h i tv) i false
  unfolding fde_add_timeout
  fde_add_timeout-Queued tv = record {
    list = ground arith;
    stamp = λ j. ground arith;
    counter = ground arith;
  }

  module _ (v : IsSound h) where
    delete_as-Unqueued : (t : FdeType) → (h.fdes i).f_type ≡ t → Unqueued h (delete_as t h i) i
    unfolding delete_as fde_rw_delete fde_ue_delete fde_cb_delete fde_t_delete fde_kq_push
        delete_flags
    delete_as-Unqueued callback e = record {
      list = ground (arith, v.callbacks i, remove_absent i h.f_cb_head);
      stamp = λ j. ground arith;
      counter = ground arith;
    }
    delete_as-Unqueued _ e = record {
      list = ground (arith, v.callbacks i, remove_absent i h.f_cb_head);
      stamp = λ j. ground arith;
      counter = ground arith;
    }

    pub fde_delete-Unqueued : Unqueued h (fde_delete h i) i
    unfolding fde_delete
    fde_delete-Unqueued = delete_as-Unqueued (h.fdes i).f_type refl

    pub fde_free-Unqueued : Unqueued h (fde_free h i) i
    unfolding fde_free update
    fde_free-Unqueued = record {
      list = ground (arith, v.callbacks i, remove_absent i h.f_cb_head, fde_delete-Unqueued.list);
      stamp = λ j. ground (arith, fde_delete-Unqueued.stamp j, fde_delete-Unqueued.stamp i);
      counter = ground (arith, fde_delete-Unqueued.counter);
    }
