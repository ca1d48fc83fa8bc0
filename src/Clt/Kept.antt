-- ===== src/Clt/Kept.antt =====
-- How each operation of src/clt/clt.c treats the list of connections and their memory.
use libiapp.Base.{
  ℕ, ◌+◌, ◌-◌, ◌≡◌, refl, sym, ap, ◌∙◌, true, Option, none, some, List, arith, ◌==◌, if_cases, has,
  remove, times, times-remove_any,
}
use mathlib.Core.Path.{subst}
use libiapp.Fde.Register.{fde_delete}
use libiapp.Shm.State.{returned}
use libiapp.Netbuf.State.{NetHeap, free_block}
use libiapp.Netbuf.Alloc.{iapp_netbuf_free, free_as}
use libiapp.Conn.State.{conn_state_freeing}
use libiapp.Clt.State.{CltApp, with_event}
use libiapp.Clt.Handlers.{
  thrclt_conn_update_cb, free_opt, free_netbuf, drop_conn, conn_ev_cleanup_cb,
}
use libiapp.Clt.Shape.{shape}
use libiapp.Clt.Held.{IsLater, IsKept, IsTyped, nb_times, opt_times, books_unmoved, books_shrunk}

-- A thread's connections, counted as `n`, with what else is allocated.
abbrev pub IsBooked : ℕ → (ℕ → ℕ) → CltApp → Type 0
IsBooked n base s = IsKept n base s.conn_list s.conns s.net

-- The list of connections is as long as it is counted.
abbrev pub IsCounted : (ℕ → ℕ) → CltApp → Type 0
IsCounted base s = IsBooked s.num_clients base s

-- A callback that leaves the shape as it is.
pub IsBooked-shape :
    (n : ℕ) (base : ℕ → ℕ) (s t : CltApp)
    → ((d : ℕ) → shape d t ≡ shape d s)
    → IsBooked n base s
    → IsBooked n base t
IsBooked-shape n base s t e k =
    let w =
      books_unmoved k t.conns s.net (λ c p. (ap (λ z. z.3) (e c), ap (λ z. z.4) (e c)))
        (omega arith, λ b l. refl) (λ d. refl) in
    subst (λ (y : List ℕ × NetHeap). IsKept n base y.0 t.conns y.1)
      (sym (ap (λ z. (z.1, z.2)) (e 0))) w

pub IsCounted-shape :
    (base : ℕ → ℕ) (s t : CltApp)
    → ((d : ℕ) → shape d t ≡ shape d s)
    → IsCounted base s
    → IsCounted base t
IsCounted-shape base s t e k =
    subst (λ n. IsBooked n base t) (sym (ap (λ z. z.0) (e 0)))
      (IsBooked-shape s.num_clients base s t e k)

-- What is left of the heap when a connection gives back its two buffers.
abbrev Freed : (r nb : Option ℕ) → NetHeap → NetHeap → Type 0
Freed r nb h m =
    IsLater h m
    × ((d : ℕ) → times d m.live ≡ times d h.live - (opt_times d r + nb_times d h.bufs nb))

free_opt-Freed : (r : Option ℕ) (h : NetHeap) → Freed r none h (free_opt r h)
unfolding free_opt
free_opt-Freed none h = ((omega arith, λ b l. refl), λ d. omega arith)
free_opt-Freed (some b) h =
    ((omega arith, λ b l. refl), λ d. omega (arith, times-remove_any d b h.live))

free_netbuf-Freed :
    (r nb : Option ℕ) (h : NetHeap)
    → IsTyped h nb
    → (m : NetHeap) × (free_netbuf nb (free_opt r h) ≡ returned m) × Freed r nb h m
unfolding free_netbuf free_opt iapp_netbuf_free free_as
free_netbuf-Freed r none h t = (free_opt r h, refl, free_opt-Freed r h)
free_netbuf-Freed none (some n) h t = (
  free_block (free_block h (h.bufs n).bufptr) n,
  ap (free_as h n) t.1,
  (
    (omega arith, λ b l. refl),
    λ d. omega (
      arith,
      times-remove_any d n (remove (h.bufs n).bufptr h.live),
      times-remove_any d (h.bufs n).bufptr h.live,
    ),
  ),
)
free_netbuf-Freed (some r) (some n) h t = (
  free_block (free_block (free_block h r) (h.bufs n).bufptr) n,
  ap (free_as (free_block h r) n) t.1,
  (
    (omega arith, λ b l. refl),
    λ d. omega (
      arith,
      times-remove_any d n (remove (h.bufs n).bufptr (remove r h.live)),
      times-remove_any d (h.bufs n).bufptr (remove r h.live),
      times-remove_any d r h.live,
    ),
  ),
)

-- The rest of conn_ev_cleanup_cb, behind the two calls about the event and the owner.
drop_conn-IsBooked :
    (n : ℕ) (base : ℕ → ℕ) (c : ℕ) (u : CltApp)
    → IsBooked n base u
    → has c u.conn_list ≡ true
    → (w : CltApp) × (drop_conn c u (free_netbuf (u.conns c).nb (free_opt (u.conns c).r_buf u.net))
        ≡ returned w)
      × IsBooked (n - 1) base w
      × (w.num_clients ≡ u.num_clients)
unfolding drop_conn
drop_conn-IsBooked n base c u k p =
    let x = u.conns c in
    let (m, e, f) = free_netbuf-Freed x.r_buf x.nb u.net (k.typed c p) in
    (
      record u { conn_list = remove c u.conn_list; net = free_block m c },
      ap (drop_conn c u) e,
      books_shrunk k (free_block m c) c p (f.0.0, λ b l. f.0.1 b l)
          (λ d. omega (arith, f.1 d, times-remove_any d c m.live)),
      refl,
    )

-- What the rest of conn_ev_cleanup_cb comes to.
abbrev Dropped : (ℕ → ℕ) → ℕ → CltApp → Type 0
Dropped base c u =
    (w : CltApp) × (drop_conn c u (free_netbuf (u.conns c).nb (free_opt (u.conns c).r_buf u.net))
      ≡ returned w)
    × IsCounted base w

drop_conn-Dropped :
    (n : ℕ) (base : ℕ → ℕ) (c : ℕ) (u : CltApp)
    → IsBooked n base u
    → has c u.conn_list ≡ true
    → u.num_clients ≡ n - 1
    → Dropped base c u
drop_conn-Dropped n base c u k p q =
    let (w, e, b, f) = drop_conn-IsBooked n base c u k p in
    (w, e, subst (λ j. IsBooked j base w) (sym (f ∙ q)) b)

conn_ev_cleanup_cb_event :
    (base : ℕ → ℕ) (c : ℕ) (s : CltApp)
    → IsCounted base s
    → has c s.conn_list ≡ true
    → (ev : Option ℕ)
    → Dropped base c (thrclt_conn_update_cb conn_state_freeing c (with_event fde_delete ev s))
unfolding thrclt_conn_update_cb
conn_ev_cleanup_cb_event base c s k p none =
    let n = s.num_clients in
    if_cases (Dropped base c) (n == 0)
      (λ z. drop_conn-Dropped n base c (with_event fde_delete none s) k p (ground (arith, z)))
      (λ z.
        drop_conn-Dropped n base c (record (with_event fde_delete none s) { num_clients = n - 1 }) k
          p refl)
conn_ev_cleanup_cb_event base c s k p (some ev) =
    let n = s.num_clients in
    if_cases (Dropped base c) (n == 0)
      (λ z. drop_conn-Dropped n base c (with_event fde_delete (some ev) s) k p (ground (arith, z)))
      (λ z.
        drop_conn-Dropped n base c
          (record (with_event fde_delete (some ev) s) { num_clients = n - 1 }) k p refl)

-- conn_ev_cleanup_cb of a connection on the list returns, with one connection less.
pub conn_ev_cleanup_cb-IsCounted :
    (base : ℕ → ℕ) (c : ℕ) (s : CltApp)
    → IsCounted base s
    → has c s.conn_list ≡ true
    → (w : CltApp) × (conn_ev_cleanup_cb c s ≡ returned w) × IsCounted base w
unfolding conn_ev_cleanup_cb
conn_ev_cleanup_cb-IsCounted base c s k p =
    conn_ev_cleanup_cb_event base c s k p (s.conns c).ev_cleanup
