-- ===== src/Conn/Release.antt =====
-- The memory of a connection of lib/libiapp/conn.c, from conn_new to client_ev_cleanup_cb.
use libiapp.Base.{
  ℕ, suc, ◌≡◌, ◌⊎◌, ◌<◌, refl, sym, ap, ◌∙◌, inl, inr, ◌&&◌, arith, if_cases, Bool, true, false,
  not, Option, none, some, ◌∷◌, ℤ, remove, remove-head,
}
use mathlib.Core.Path.{subst}
use libiapp.Shm.State.{ShmState, Ran, returned, aborts}
use libiapp.Shm.Sane.{IsSane}
use libiapp.Shm.Steps.{IsSmall}
use libiapp.Shm.Reach.{returned_injective, returned-aborts}
use libiapp.Netbuf.State.{NetHeap, take_block, free_block}
use libiapp.Netbuf.Alloc.{iapp_netbuf_alloc, iapp_netbuf_free}
use libiapp.Netbuf.Lifetime.{Settled, Outcome, iapp_netbuf_free-iapp_netbuf_alloc}
use libiapp.Comm.State.{FdeComm}
use libiapp.Comm.Create.{comm_create}
use libiapp.Conn.State.{conn_state_freeing, Cfg, asks_free, ConnRun, ConnOwner, ask}
use libiapp.Conn.Handlers.{notify, client_ev_cleanup_cb, free_conn}
use libiapp.Conn.New.{NewCalls, Place, is_made, start, NewResult, with_netbuf, conn_new}
use libiapp.Conn.Fine.{all_sound}
use libiapp.Conn.Life.{ConnReach}
use libiapp.Conn.Held.{iapp_netbuf_free-free_block, held-notify, held-ConnReach}

-- What conn_new comes to: a connection whose blocks can all be given back, or none, and no block taken.
abbrev pub Kept : NetHeap → ConnOwner → NewResult → Type 0
Kept h o (q, none) = q.net.live ≡ h.live
Kept h o (q, some (s, fc)) =
    (t : ConnRun)
    → ConnReach o s t
    → (u : ConnRun) × (client_ev_cleanup_cb o t ≡ returned u) × Settled h u.net

client_ev_cleanup_cb-Settled :
    (h m v : NetHeap) (o : ConnOwner) (t : ConnRun)
    → iapp_netbuf_free t.net t.c.nb ≡ returned v
    → Settled m v
    → m.shm ≡ h.shm
    → m.live ≡ t.c.r_buf ∷ t.c.self ∷ h.live
    → (u : ConnRun) × (client_ev_cleanup_cb o t ≡ returned u) × Settled h u.net
unfolding client_ev_cleanup_cb
client_ev_cleanup_cb-Settled h m v o t f w e l =
    let n = notify o conn_state_freeing t in
    let x = held-notify o conn_state_freeing t in
    let u = ask (asks_free n.c.ev_cleanup) n in
    let g : iapp_netbuf_free (free_block u.net u.c.r_buf) u.c.nb
        ≡ returned (free_block v t.c.r_buf) =
      ap (λ (y : NetHeap × ℕ × ℕ × ℕ). iapp_netbuf_free (free_block y.0 y.2) y.3) x
      ∙ iapp_netbuf_free-free_block t.net v t.c.nb t.c.r_buf f in
    (
      record u { net = free_block (free_block v t.c.r_buf) u.c.self },
      ap (free_conn u) g,
      record {
        same_blocks =
            ap (λ (y : NetHeap × ℕ × ℕ × ℕ). remove y.1 (remove t.c.r_buf v.live)) x
            ∙ ap (λ ls. remove t.c.self (remove t.c.r_buf ls)) (w.same_blocks ∙ l)
            ∙ ap (remove t.c.self) (remove-head t.c.r_buf (t.c.self ∷ h.live))
            ∙ remove-head t.c.self h.live;
        same_use =
            subst
              (λ (z : ShmState).
                (a : ℕ)
                → a < z.next_alloc
                → (v.shm.allocs a).sha_isactive ≡ (z.allocs a).sha_isactive)
              e w.same_use;
        sane = w.sane;
        released = w.released;
        nodes =
            subst
              (λ (z : ShmState).
                (v.shm.next_alloc ≡ z.next_alloc)
                ⊎ ((v.shm.next_alloc ≡ suc z.next_alloc)
                    × ((v.shm.allocs z.next_alloc).sha_isactive ≡ false)))
              e w.nodes;
      },
    )

abbrev has_netbuf : Ran (NetHeap × Option ℕ) → Bool
has_netbuf (returned (h, some nb)) = true
has_netbuf _ = false

-- The allocations of conn_new before comm_create succeed: the struct, the read buffer and the netbuf.
abbrev pub has_memory : NewCalls → Place → Cfg → Bool
has_memory sys p cfg =
    sys.calloc
    && sys.malloc_buf
    && has_netbuf (
        iapp_netbuf_alloc sys.struct sys.malloc sys.node (take_block (take_block p.net)) cfg.atype
          cfg.io_size)

-- The comm_create of conn_new makes an object.
abbrev pub makes_comm : NewCalls → Place → ℤ → Bool
makes_comm sys p fd =
    is_made (comm_create sys.calloc_comm sys.note_eof sys.handlers p.fh fd (some sys.close_cb)).1

-- Without a connection, memory failed; with one, nothing did, it has its comm object, and writes to it.
abbrev Told : (memory made : Bool) → NewResult → Type 0
Told memory made (q, none) = memory ≡ false
Told memory made (q, some (s, fc)) =
    (memory ≡ true) × (made ≡ true) × (s.c.comm ≡ true) × (all_sound s.asks ≡ true)

-- The ends of conn_new: it returns, or writes to the object that comm_create did not make.
abbrev Keeps : NetHeap → ConnOwner → (memory made : Bool) → Ran NewResult → Type 0
Keeps h o memory made r =
    ((x : NewResult) × (r ≡ returned x) × Kept h o x × Told memory made x)
    ⊎ ((r ≡ aborts) × (memory ≡ true) × (made ≡ false))

with_netbuf-Keeps :
    (sys : NewCalls) (p : Place) (cfg : Cfg) (fd : ℤ) (cb : Bool) (o : ConnOwner)
    (r : NetHeap × Option ℕ)
    → Outcome (take_block (take_block p.net)) r
    → Keeps p.net o
        (has_netbuf (returned r))
        (makes_comm sys p fd)
        (with_netbuf sys p cfg fd cb p.net.next_block (suc p.net.next_block) (returned r))
unfolding with_netbuf start all_sound
with_netbuf-Keeps sys p cfg fd cb o (h, none) g = inl (
  _,
  refl,
  ap (λ ls. remove p.net.next_block (remove (suc p.net.next_block) ls)) g.0
      ∙ ap (remove p.net.next_block)
          (remove-head (suc p.net.next_block) (p.net.next_block ∷ p.net.live))
      ∙ remove-head p.net.next_block p.net.live,
  refl,
)
with_netbuf-Keeps sys p cfg fd cb o (h, some nb) (v, f, w) =
    if_cases (Keeps p.net o true (makes_comm sys p fd)) (makes_comm sys p fd)
      (λ m. inl (
        _,
        refl,
        λ t reach.
            let x = held-ConnReach reach in
            client_ev_cleanup_cb-Settled p.net (take_block (take_block p.net)) v o t
              (ap (λ (y : NetHeap × ℕ × ℕ × ℕ). iapp_netbuf_free y.0 y.3) x ∙ f) w refl
              (ap (λ (y : NetHeap × ℕ × ℕ × ℕ). y.2 ∷ y.1 ∷ p.net.live) (sym x)),
        (refl, m, m, ground (arith, m)),
      ))
      (λ m. inr (refl, refl, m))

conn_new-Keeps :
    (sys : NewCalls) (p : Place) (cfg : Cfg) (fd : ℤ) (cb : Bool) (o : ConnOwner)
    → IsSane p.net.shm
    → p.net.shm.locked ≡ false
    → IsSmall p.net.shm cfg.io_size
    → Keeps p.net o (has_memory sys p cfg) (makes_comm sys p fd) (conn_new sys p cfg fd cb)
unfolding conn_new
conn_new-Keeps sys p cfg fd cb o s l w =
    let h = take_block (take_block p.net) in
    let (r, e, g) =
      iapp_netbuf_free-iapp_netbuf_alloc sys.struct sys.malloc sys.node h cfg.atype cfg.io_size s l
        w in
    let to = with_netbuf sys p cfg fd cb p.net.next_block (suc p.net.next_block) in
    let made = makes_comm sys p fd in
    let got =
      subst (λ y. Keeps p.net o (has_netbuf y) made (to y)) (sym e)
        (with_netbuf-Keeps sys p cfg fd cb o r g) in
    let Ends = Keeps p.net o (has_memory sys p cfg) made in
    if_cases Ends (not sys.calloc) (λ c. inl ((p, none), refl, refl, ground (arith, c)))
      (λ c.
        if_cases Ends (not sys.malloc_buf)
          (λ m. inl (_, refl, remove-head p.net.next_block p.net.live, ground (arith, m)))
          (λ m.
            subst
              (λ b.
                Keeps p.net o b made
                  (to (iapp_netbuf_alloc sys.struct sys.malloc sys.node h cfg.atype cfg.io_size)))
              (ground (arith, c, m)) got))

-- What conn_new leaves: without a connection, the blocks that were held before, and an allocation before comm_create
-- failed; with one, none did, comm_create made an object, and the connection asks to write to it.
abbrev pub Started : NetHeap → (memory made : Bool) → NewResult → Type 0
Started h memory made (q, none) = (q.net.live ≡ h.live) × (memory ≡ false)
Started h memory made (q, some (s, fc)) =
    (memory ≡ true) × (made ≡ true) × (s.c.comm ≡ true) × (all_sound s.asks ≡ true)

Started-Kept :
    (h : NetHeap) (o : ConnOwner) (memory made : Bool) (x : NewResult)
    → Kept h o x
    → Told memory made x
    → Started h memory made x
Started-Kept h o memory made (q, none) k t = (k, t)
Started-Kept h o memory made (q, some (s, fc)) k t = t

-- In a sane allocator with a free mutex, and for an I/O size that does not wrap around, conn_new comes to
-- one of three ends. It returns no connection, holds the blocks that were held before, and the struct, the
-- read buffer or the netbuf was not to be had; or it returns a connection with its comm object, which it
-- writes to; or it had the memory, but comm_create made no object, and then conn_new ends in the
-- comm_write on NULL, since it does not look at what comm_create returned.
pub conn_new-Started :
    (sys : NewCalls) (p : Place) (cfg : Cfg) (fd : ℤ) (cb : Bool)
    → IsSane p.net.shm
    → p.net.shm.locked ≡ false
    → IsSmall p.net.shm cfg.io_size
    → ((x : NewResult) × (conn_new sys p cfg fd cb ≡ returned x)
        × Started p.net (has_memory sys p cfg) (makes_comm sys p fd) x)
      ⊎ ((conn_new sys p cfg fd cb ≡ aborts)
          × (has_memory sys p cfg ≡ true)
          × (makes_comm sys p fd ≡ false))
conn_new-Started sys p cfg fd cb s l w =
    let o : ConnOwner = record { update_closes = λ c x. false; stats_closes = λ c. false } in
    elim (conn_new-Keeps sys p cfg fd cb o s l w) [
      | inl (x, e, k, t) ↦ inl (x, e, Started-Kept p.net o _ _ x k t)
      | inr x ↦ inr x
    ]

-- A connection from conn_new, in a sane allocator with a free mutex and for an I/O size that does not wrap
-- around, and after any calls of its owner and any callbacks, while nothing else uses the heap:
-- client_ev_cleanup_cb returns, and then the blocks that conn.c and netbuf.c hold are those from before conn_new, every
-- allocation of shared memory is in use exactly where it was, and the allocator is sane with its mutex free;
-- the allocator has the nodes that it had, or one more, which it keeps and which is not active.
pub client_ev_cleanup_cb-conn_new :
    (sys : NewCalls) (p q : Place) (cfg : Cfg) (fd : ℤ) (cb : Bool) (o : ConnOwner) (s : ConnRun)
    (fc : Option FdeComm) (t : ConnRun)
    → IsSane p.net.shm
    → p.net.shm.locked ≡ false
    → IsSmall p.net.shm cfg.io_size
    → conn_new sys p cfg fd cb ≡ returned (q, some (s, fc))
    → ConnReach o s t
    → (u : ConnRun) × (client_ev_cleanup_cb o t ≡ returned u) × Settled p.net u.net
client_ev_cleanup_cb-conn_new sys p q cfg fd cb o s fc t v l w e r =
    elim (conn_new-Keeps sys p cfg fd cb o v l w) [
      | inl (x, f, k, _) ↦ subst (Kept p.net o) (returned_injective (sym f ∙ e)) k t r
      | inr (f, _, _) ↦ absurd (returned-aborts (sym e ∙ f))
    ]
