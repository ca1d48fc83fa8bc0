-- ===== src/Udp/Rate.antt =====
-- One round of src/udp_clt/udp_clt.c that sends frames: thrclt_send_frames.
use libiapp.Base.{
  ◌≢◌, ℕ, zero, suc, ◌+◌, ◌-◌, ◌≤◌, ◌≡◌, refl, sym, ap, ◌∙◌, Bool, true, false, not, ◌||◌, none,
  List, [], ◌∷◌, ◌++◌, append_assoc, append-nil, ◌⊎◌, inl, inr, ℤ, pos, minus_one, arith, ltb, leb,
  if◌then◌else◌, if_both, if_cases, option_cases, length, All,
}
use libiapp.Comm.State.{UdpFrame, World, add_event}
use libiapp.Comm.Api.{comm_udp_write}
use libiapp.Comm.Udp.{fde_comm_udp_alloc}
use libiapp.Udp.State.{UdpClt}
use libiapp.Udp.Client.{is_refused, fill_frame, send_frames, thrclt_send_frames}

-- Datagrams are set up, within their limit, and the object is not closing.
abbrev pub IsSending : World → Type 0
IsSending w =
    (w.c.udp_w.is_active ≡ true) × (w.c.is_closing ≡ false) × (w.c.udp_w.qlen ≤ w.c.udp_w.max_qlen)

-- What comm_udp_write makes of a frame while datagrams are sent.
abbrev Took : World → UdpFrame → World × ℤ → Type 0
Took w fr (v, r) =
    ((is_refused r ≡ true) × (v ≡ w) × (w.c.udp_w.max_qlen ≤ w.c.udp_w.qlen))
    ⊎ ((is_refused r ≡ false)
        × (v.c.udp_w.w_q ≡ w.c.udp_w.w_q ++ fr ∷ [])
        × (v.c.udp_w.qlen ≡ suc w.c.udp_w.qlen)
        × (v.c.udp_w.max_qlen ≡ w.c.udp_w.max_qlen)
        × IsSending v)

comm_udp_write-Took : (w : World) (fr : UdpFrame) → IsSending w → Took w fr (comm_udp_write w fr)
unfolding comm_udp_write
comm_udp_write-Took w fr (a, c, l) =
    let s = w.c.udp_w in
    let v = record w {
      c = record (w.c) { udp_w = record s { w_q = s.w_q ++ fr ∷ []; qlen = s.qlen + 1 } };
    } in
    let primed =
      add_event v.c.ev_udp_write
        (record v { c = record (v.c) { udp_w = record (v.c.udp_w) { is_primed = true } } }) in
    if_cases (Took w fr) (not s.is_active || w.c.is_closing) {x = (w, minus_one)}
      (λ e. ground (arith, a, c, e))
      (λ e.
        if_cases (Took w fr) (leb s.max_qlen s.qlen) {x = (w, minus_one)}
          (λ f. inl (refl, refl, ground (arith, f)))
          (λ f.
            let room : suc s.qlen ≤ s.max_qlen = ground (arith, f) in
            if_both (λ u. Took w fr (u, pos 0)) s.is_primed {x = v} {y = primed}
              (inr (refl, refl, omega arith, refl, (a, c, omega (arith, room))))
              (inr (refl, refl, omega arith, refl, (a, c, omega (arith, room))))))

abbrev smaller : ℕ → ℕ → ℕ
smaller a b = if ltb a b then a else b

-- A round of at most `n` frames: what is behind the queue, and how many fit.
abbrev pub Sent : (n : ℕ) → UdpClt → UdpClt → Type 0
Sent n s t =
    let w = s.comm_wr.c.udp_w in
    (new : List UdpFrame) × (t.comm_wr.c.udp_w.w_q ≡ w.w_q ++ new)
    × (t.comm_wr.c.udp_w.qlen ≡ w.qlen + length new)
    × (length new ≡ smaller n (w.max_qlen - w.qlen))
    × All (λ (fr : UdpFrame). fr.len ≡ s.max_io_size) new
    × (t.faults ≡ s.faults)

module _ (calloc malloc : ℕ → Bool) (ca : (f : ℕ) → calloc f ≡ true)
    (ma : (f : ℕ) → malloc f ≡ true) where
  alloc_some : (f m : ℕ) → fde_comm_udp_alloc (calloc f) (malloc f) f m ≢ none
  unfolding fde_comm_udp_alloc
  alloc_some f m = ground (arith, ca f, ma f)

  send_frames-Sent :
      (n : ℕ) (s : UdpClt) → IsSending s.comm_wr → Sent n s (send_frames calloc malloc n s)
  unfolding send_frames fill_frame
  send_frames-Sent zero s i =
      ([], sym (append-nil s.comm_wr.c.udp_w.w_q), omega arith, ground arith, tt, refl)
  send_frames-Sent (suc n) s i =
      option_cases (Sent (suc n) s)
        (fde_comm_udp_alloc (calloc s.next_frame) (malloc s.next_frame) s.next_frame s.max_io_size)
        (λ e. elim (alloc_some s.next_frame s.max_io_size e) [ ])
        λ fr e.
          (let (t, fs) = fill_frame s fr in
            let (w, r) = comm_udp_write t.comm_wr fs in
            let u = record t { comm_wr = w } in
            if_cases (Sent (suc n) s) (is_refused r)
              (λ p. elim (comm_udp_write-Took t.comm_wr fs i) [
                | inl (x, q, z) ↦ (
                  [],
                  ap (λ (y : World). y.c.udp_w.w_q) q ∙ sym (append-nil s.comm_wr.c.udp_w.w_q),
                  omega (arith, ap (λ (y : World). y.c.udp_w.qlen) q),
                  ground (arith, z),
                  tt,
                  refl,
                )
                | inr q ↦ cc
              ])
              (λ p. elim (comm_udp_write-Took t.comm_wr fs i) [
                | inl q ↦ cc
                | inr (x, q, l, m, j) ↦
                    (let (new, f, g, h, k, z) = send_frames-Sent n u j in
                      (
                        fs ∷ new,
                        f
                            ∙ ap (λ xs. xs ++ new) q
                            ∙ append_assoc s.comm_wr.c.udp_w.w_q (fs ∷ []) new,
                        omega (arith, g, l),
                        ground (arith, h, l, m, i.2),
                        (refl, k),
                        z,
                      ))
              ]))

-- While datagrams are set up and the object is not closing, and where no allocation fails:
-- thrclt_send_frames puts as many frames behind the queue as the rate says and the queue still takes, each of
-- the full size; the count of the queue is raised by as many; and no NULL is used.
pub thrclt_send_frames-Sent :
    (calloc malloc : ℕ → Bool) (s : UdpClt)
    → ((f : ℕ) → calloc f ≡ true)
    → ((f : ℕ) → malloc f ≡ true)
    → IsSending s.comm_wr
    → Sent s.connrate s (thrclt_send_frames calloc malloc s)
unfolding thrclt_send_frames
thrclt_send_frames-Sent calloc malloc s ca ma i =
    send_frames-Sent calloc malloc ca ma s.connrate s i
