-- ===== src/Comm/Wiring.antt =====
-- The event loop under an object of lib/libiapp/comm.c: what changes of it the parts of its calls make.
use libiapp.Base.{ℕ, ◌≡◌, refl, sym, ap, ◌∙◌, true, not, List, [], ◌∷◌, arith, if_both, has}
use mathlib.Core.Path.{subst}
use libiapp.Fde.Event.{FdeHead, FdeType, read, write, callback, timer, user, update}
use libiapp.Fde.Register.{
  fde_rw_add, fde_rw_delete, fde_ue_add, fde_ue_delete, fde_cb_add, fde_cb_delete, fde_t_delete,
  add_as, delete_as, fde_add, fde_delete,
}
use libiapp.Fde.Kq.{fde_kq_push, add_flags, delete_flags}
use libiapp.Fde.Loop.{Reach, here, next_call, adds, deletes}
use libiapp.Comm.State.{
  FdeComm, World, add_event, delete_event, set_r, comm_is_close_ready, comm_start_cleanup,
}
use libiapp.Comm.Api.{
  close_read, close_write, register_read, read_if_ready, register_write, write_if_ready,
}

add_as-allocated :
    (t : FdeType) (h : FdeHead) (i j : ℕ) → ((add_as t h i).fdes j).allocated ≡ (h.fdes j).allocated
unfolding add_as fde_rw_add fde_ue_add fde_cb_add update fde_kq_push add_flags
add_as-allocated read h i j = ground arith
add_as-allocated write h i j = ground arith
add_as-allocated callback h i j = ground arith
add_as-allocated user h i j = ground arith
add_as-allocated _ h i j = refl

delete_as-allocated :
    (t : FdeType) (h : FdeHead) (i j : ℕ)
    → ((delete_as t h i).fdes j).allocated ≡ (h.fdes j).allocated
unfolding delete_as fde_rw_delete fde_ue_delete fde_cb_delete fde_t_delete update fde_kq_push
    delete_flags
delete_as-allocated read h i j = ground arith
delete_as-allocated write h i j = ground arith
delete_as-allocated callback h i j = ground arith
delete_as-allocated timer h i j = ground arith
delete_as-allocated user h i j = ground arith
delete_as-allocated _ h i j = refl

abbrev pub events : FdeComm → List ℕ
events c =
    c.ev_read ∷ c.ev_read_cb ∷ c.ev_write ∷ c.ev_write_cb ∷ c.ev_accept ∷ c.ev_connect
    ∷ c.ev_connect_start ∷ c.ev_cleanup ∷ c.ev_udp_read ∷ c.ev_udp_write ∷ []

-- The object's events are allocated.
abbrev pub IsWired : World → Type 0
IsWired w = (i : ℕ) → has i (events w.c) ≡ true → (w.fh.fdes i).allocated ≡ true

-- From `w` to `u` the event loop saw calls of fde.h only, which allocated and freed nothing, and the
-- object kept its events.
pub record Link (w u : World) : Type 0 where
  pub moved : Reach w.fh u.fh
  pub same : events u.c ≡ events w.c
  pub kept : (j : ℕ) → (u.fh.fdes j).allocated ≡ (w.fh.fdes j).allocated

Reach-trans : {h k g : FdeHead} → Reach h k → Reach k g → Reach h g
Reach-trans r here = r
Reach-trans r (next_call s t) = next_call (Reach-trans r s) t

pub Link-trans : {w v u : World} → Link w v → Link v u → Link w u
Link-trans p q = record {
  moved = Reach-trans p.moved q.moved;
  same = q.same ∙ p.same;
  kept = λ j. q.kept j ∙ p.kept j;
}

pub Link-IsWired : {w u : World} → IsWired w → Link w u → IsWired u
Link-IsWired {w} {u} v l i e = l.kept i ∙ v i (subst (λ ids. has i ids ≡ true) l.same e)

-- A step that leaves the loop and the object's events alone.
pub aside : {w u : World} → u.fh ≡ w.fh → events u.c ≡ events w.c → Link w u
aside {w} e s = record {
  moved = subst (λ h. Reach w.fh h) (sym e) here;
  same = s;
  kept = λ j. ap (λ (h : FdeHead). (h.fdes j).allocated) e;
}

module _ (w : World) (v : IsWired w) where
  pub add-Link : (i : ℕ) → has i (events w.c) ≡ true → Link w (add_event i w)
  unfolding fde_add
  add-Link i e = record {
    moved = next_call here (adds i (v i e));
    same = refl;
    kept = λ j. add_as-allocated (w.fh.fdes i).f_type w.fh i j;
  }

  pub delete-Link : (i : ℕ) → has i (events w.c) ≡ true → Link w (delete_event i w)
  unfolding fde_delete
  delete-Link i e = record {
    moved = next_call here (deletes i (v i e));
    same = refl;
    kept = λ j. delete_as-allocated (w.fh.fdes i).f_type w.fh i j;
  }

pub stay : {w : World} → Link w w
stay = aside refl refl

module _ (w : World) (v : IsWired w) where
  pub close_read-Link : Link w (close_read w)
  unfolding close_read has
  close_read-Link = if_both (Link w) w.c.r.is_active (add-Link w v w.c.ev_read_cb (ground arith)) (
      if_both (Link w) w.c.r.is_read
        (Link-trans (delete-Link w v w.c.ev_read (ground arith)) (aside refl refl)) stay)

  pub close_write-Link : Link w (close_write w)
  unfolding close_write has
  close_write-Link =
      if_both (Link w) w.c.w.is_active (add-Link w v w.c.ev_write_cb (ground arith)) (
        if_both (Link w) w.c.w.is_write
          (Link-trans (delete-Link w v w.c.ev_write (ground arith)) (aside refl refl)) stay)

  pub comm_start_cleanup-Link : Link w (comm_start_cleanup w)
  unfolding comm_start_cleanup has
  comm_start_cleanup-Link = if_both (Link w) (not w.c.is_closing) stay (
      if_both (Link w) w.c.is_cleanup stay (
        if_both (Link w) (not (comm_is_close_ready w.c)) stay (
          Link-trans (aside refl refl) (
            add-Link (record w { c = record (w.c) { is_cleanup = true } }) v w.c.ev_cleanup
              (ground arith)))))

  pub register_read-Link : Link w (register_read w)
  unfolding register_read has
  register_read-Link = if_both (Link w) w.c.r.is_read stay (
      Link-trans (aside refl refl)
        (add-Link (set_r w (record (w.c.r) { is_read = true })) v w.c.ev_read (ground arith)))

  pub read_if_ready-Link : Link w (read_if_ready w)
  unfolding read_if_ready has
  read_if_ready-Link =
      if_both (Link w) w.c.r.is_ready (add-Link w v w.c.ev_read_cb (ground arith)) stay

  pub register_write-Link : Link w (register_write w)
  unfolding register_write has
  register_write-Link =
      if_both (Link w) w.c.w.is_write stay
        (Link-trans (add-Link w v w.c.ev_write (ground arith)) (aside refl refl))

  pub write_if_ready-Link : Link w (write_if_ready w)
  unfolding write_if_ready has
  write_if_ready-Link =
      if_both (Link w) w.c.w.is_ready (add-Link w v w.c.ev_write_cb (ground arith)) stay
