-- ===== src/Clt/Opened.antt =====
-- How conn_new and thrclt_open_new_conn of src/clt/clt.c treat the list of connections and their memory.
use libiapp.Base.{
  ℕ, suc, ◌+◌, ◌%◌, ◌^◌, ◌<◌, ◌≡◌, ◌⊎◌, inl, inr, refl, sym, ap, ◌∙◌, Bool, true, false, not,
  Option, none, some, [], ◌∷◌, ◌++◌, ℤ, arith, minus_one, if_both, if_cases, ◌&&◌, remove,
  remove-head, times, store, store_same, store_other,
}
use mathlib.Core.Path.{subst}
use libiapp.Fde.Event.{callback}
use libiapp.Fde.Register.{fde_create}
use libiapp.Fde.Timeout.{lt_zero}
use libiapp.Shm.State.{Ran, returned, aborts}
use libiapp.Netbuf.State.{nb_alloc_malloc, Netbuf, NetHeap, set_netbuf, take_block}
use libiapp.Netbuf.Alloc.{
  iapp_netbuf_alloc, alloc_as, alloc_malloc, finish, iapp_netbuf_buf, iapp_netbuf_size,
}
use libiapp.Comm.Create.{comm_create}
use libiapp.Conn.New.{fill, is_made}
use libiapp.Clt.State.{nonblocking_of, set_conn, fault, CltConn, CltApp}
use libiapp.Clt.New.{OpenCalls, keep_made, fresh_conn, with_socket, clt_with_netbuf, clt_conn_new}
use libiapp.Clt.Held.{IsTyped, IsKept, IsLater, books_unmoved, books_grown}
use libiapp.Clt.Kept.{IsBooked}

-- What conn_new does not touch.
abbrev pub limits : CltApp → ℕ × ℤ × ℤ
limits s = (s.num_clients, s.nconns, s.connrate)

-- With a connection, the list has one more; without, the same blocks are allocated, and a call failed.
abbrev pub NewKept : ℕ → (ℕ → ℕ) → CltApp → (ok : Bool) → CltApp × Option ℕ → Type 0
NewKept n base s ok (t, none) = IsBooked n base t × (limits t ≡ limits s) × (ok ≡ false)
NewKept n base s ok (t, some c) = IsBooked (suc n) base t × (limits t ≡ limits s)

-- The calls of conn_new succeed.
abbrev pub gets_socket : OpenCalls → (ai_family : ℕ) → Bool
gets_socket sys ai_family = not (lt_zero (sys.socket ai_family))

abbrev pub new_succeeds : OpenCalls → (ai_family : ℕ) → Bool
new_succeeds sys ai_family =
    let a = sys.new in a.calloc && a.malloc_buf && a.struct && a.malloc && gets_socket sys ai_family

module _ (n : ℕ) (base : ℕ → ℕ) (s : CltApp) (k : IsBooked n base s) where
  -- The blocks of one connection, the newest first, and a heap in which they are allocated.
  abbrev start_block : ℕ
  start_block = s.net.next_block

  -- Blocks were given out and freed again.
  again :
      (m : NetHeap) → IsLater s.net m → m.live ≡ s.net.live → IsKept n base s.conn_list s.conns m
  again m l e = books_unmoved k s.conns m (λ c p. (refl, refl)) l (λ d. ap (times d) e)

  -- A heap with the four blocks of a new connection.
  abbrev HasBlocks : NetHeap → Type 0
  HasBlocks m =
      IsLater s.net m
      × (start_block + 3 < m.next_block)
      × ((m.bufs (suc (suc start_block))).nb_type ≡ nb_alloc_malloc)
      × ((m.bufs (suc (suc start_block))).bufptr ≡ suc (suc (suc start_block)))
      × (m.live
          ≡ suc (suc (suc start_block))
            ∷ suc (suc start_block)
            ∷ suc start_block
            ∷ start_block
            ∷ s.net.live)

  -- A connection with the read buffer and the netbuf.
  abbrev HasBuffers : CltConn → Type 0
  HasBuffers x = (x.r_buf ≡ some (suc start_block)) × (x.nb ≡ some (suc (suc start_block)))

  joins :
      (m : NetHeap) (x : CltConn)
      → HasBuffers x
      → HasBlocks m
      → IsKept (suc n) base (s.conn_list ++ start_block ∷ []) (store s.conns start_block x) m
  unfolding times
  joins m x (r, nb) (l, q, t, b, e) =
      let w = store_same s.conns start_block x in
      books_grown k (store s.conns start_block x) m start_block
        (λ c p. (
          ap (λ (y : CltConn). y.r_buf)
              (store_other s.conns start_block c x (ground (arith, k.young c p))),
          ap (λ (y : CltConn). y.nb)
              (store_other s.conns start_block c x (ground (arith, k.young c p))),
        ))
        l (omega arith) (omega (arith, q))
        (subst (IsTyped m) (sym (ap (λ (y : CltConn). y.nb) w ∙ nb)) (omega (arith, q), t))
        (λ d. ap (times d) e ∙ ground (arith, w, r, nb, b))

  -- conn_new where it has a descriptor.
  with_socket-NewKept :
      (sys : OpenCalls) (m : NetHeap) (mem : ℕ → ℕ) (x : CltConn)
      → HasBuffers x
      → HasBlocks m
      → (ok : Bool)
      → NewKept n base s ok
          (with_socket sys start_block x (record s { net = m; memory = mem }), some start_block)
  unfolding with_socket
  with_socket-NewKept sys m mem x b h ok =
      let c = start_block in
      let a = sys.new in
      let made = comm_create a.calloc_comm a.note_eof a.handlers s.h x.fd (some a.close_cb) in
      let ev = fde_create a.calloc_ev a.note_eof made.0 minus_one callback false a.cleanup_cb in
      let y = record x { comm = is_made made.1; ev_cleanup = ev.1 } in
      let t = record (set_conn (record s { net = m; memory = mem }) c y) {
        h = ev.0;
        comms = keep_made made.1 s.comms;
      } in
      let j = joins m y b h in
      if_both
        (λ (u : CltApp).
          NewKept n base s ok (record u { conn_list = u.conn_list ++ c ∷ [] }, some c))
        (t.conns c).comm {x = record t { asks = t.asks ++ nonblocking_of c ∷ [] }} {y = fault t}
        (j, refl) (j, refl)

  -- The ends of conn_new: it returns, or reads the struct that it freed, where it was given no descriptor.
  abbrev pub Newly : (ok lost : Bool) → Ran (CltApp × Option ℕ) → Type 0
  Newly ok lost r =
      ((z : CltApp × Option ℕ) × (r ≡ returned z) × NewKept n base s ok z)
      ⊎ ((r ≡ aborts) × (lost ≡ true))

  clt_with_netbuf-Newly :
      (sys : OpenCalls) (ai_family : ℕ)
      → (struct malloc node : Bool)
      → Newly (struct && malloc && gets_socket sys ai_family) (lt_zero (sys.socket ai_family)) (
          clt_with_netbuf sys ai_family start_block (suc start_block) s (
            iapp_netbuf_alloc struct malloc node
              (take_block (take_block s.net))
              nb_alloc_malloc
              s.max_io_size))
  unfolding clt_with_netbuf fill iapp_netbuf_buf iapp_netbuf_size iapp_netbuf_alloc alloc_as
      alloc_malloc finish
  clt_with_netbuf-Newly sys ai_family false malloc node =
      let c = start_block in
      let e = ap (remove c) (remove-head (suc c) (c ∷ s.net.live)) ∙ remove-head c s.net.live in
      inl (_, refl, (again _ (omega arith, λ b l. refl) e, refl, refl))
  clt_with_netbuf-Newly sys ai_family true false node =
      let c = start_block in
      let e =
        ap (λ ls. remove c (remove (suc c) ls)) (remove-head (suc (suc c)) (suc c ∷ c ∷ s.net.live))
        ∙ ap (remove c) (remove-head (suc c) (c ∷ s.net.live))
        ∙ remove-head c s.net.live in
      inl (_, refl, (again _ (omega arith, λ b l. refl) e, refl, refl))
  clt_with_netbuf-Newly sys ai_family true true node =
      let c = start_block in
      let n1 = suc (suc c) in
      let x : Netbuf = record {
        sa = (s.net.bufs n1).sa;
        bufptr = suc n1;
        buf_size = s.max_io_size % 2 ^ 32;
        nb_type = nb_alloc_malloc;
      } in
      let m = set_netbuf (take_block (take_block (take_block (take_block s.net)))) n1 x in
      let mem = fill (iapp_netbuf_buf m n1) 0 (iapp_netbuf_size m n1) s.memory in
      let y = fresh_conn (sys.socket ai_family) s.max_io_size (suc c) n1 in
      let w = store_same s.net.bufs n1 x in
      let h : HasBlocks m = (
        (omega arith, λ b l. store_other s.net.bufs n1 b x (ground arith)),
        omega arith,
        ap (λ (b : Netbuf). b.nb_type) w,
        ap (λ (b : Netbuf). b.bufptr) w,
        refl,
      ) in
      let ok = gets_socket sys ai_family in
      let lost = lt_zero (sys.socket ai_family) in
      if_cases (Newly ok lost) lost (λ q. inr (refl, q))
        (λ q. inl (_, refl, with_socket-NewKept sys m mem y (refl, refl) h ok))

  pub clt_conn_new-Newly :
      (sys : OpenCalls) (ai_family : ℕ)
      → Newly
          (new_succeeds sys ai_family)
          (lt_zero (sys.socket ai_family))
          (clt_conn_new sys ai_family s)
  unfolding clt_conn_new
  clt_conn_new-Newly sys ai_family =
      let a = sys.new in
      let ok = new_succeeds sys ai_family in
      let lost = lt_zero (sys.socket ai_family) in
      let l = remove-head start_block s.net.live in
      if_cases (Newly ok lost) (not a.calloc)
        (λ q. inl ((s, none), refl, (k, refl, ground (arith, q))))
        (λ q.
          if_cases (Newly ok lost) (not a.malloc_buf)
            (λ r. inl (_, refl, (again _ (omega arith, λ b l. refl) l, refl, ground (arith, r))))
            (λ r. elim (clt_with_netbuf-Newly sys ai_family a.struct a.malloc a.node) [
              | inl (z, e, w) ↦
                  inl (z, e, subst (λ b. NewKept n base s b z) (ground (arith, q, r)) w)
              | inr x ↦ inr x
            ]))
