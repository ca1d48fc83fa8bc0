-- ===== src/Clt/Round.antt =====
-- One round of src/clt/clt.c that opens connections: thrclt_ev_newconn_cb.
use libiapp.Base.{
  ℕ, zero, suc, ◌+◌, ◌≤◌, ◌<◌, ◌≡◌, refl, sym, ap, ◌∙◌, Bool, true, false, Option, none, some, ℤ,
  pos, negsuc, arith, ltb, leb, ◌⊎◌, inl, inr, if_both, if_cases,
}
use mathlib.Core.Path.{subst}
use libiapp.Fde.Event.{Timeval}
use libiapp.Fde.Timeout.{fde_add_timeout, lt_zero}
use libiapp.Shm.State.{Ran, returned, aborts}
use libiapp.Conn.State.{conn_state_connecting}
use libiapp.Clt.State.{CltApp, connect_of, use_comm}
use libiapp.Clt.Handlers.{set_clt_state}
use libiapp.Clt.New.{OpenCalls}
use libiapp.Clt.App.{
  AddrInfo, start_connecting, thrclt_open_new_conn, is_below, is_above, RoundCalls, after_open,
  open_more, plan_round, next_newconn, thrclt_ev_newconn_cb,
}
use libiapp.Clt.Shape.{shape-set_conn, shape-use_comm}
use libiapp.Clt.Kept.{IsBooked, IsCounted, IsBooked-shape}
use libiapp.Clt.Opened.{limits, NewKept, new_succeeds, clt_conn_new-Newly}

-- All calls of thrclt_open_new_conn succeed.
abbrev pub succeeds : OpenCalls → Option AddrInfo → Bool
succeeds sys none = false
succeeds sys (some ai) = new_succeeds sys ai.ai_family

-- thrclt_open_new_conn comes to conn_new and is refused by socket(2).
abbrev pub is_refused : OpenCalls → Option AddrInfo → Bool
is_refused sys none = false
is_refused sys (some ai) = lt_zero (sys.socket ai.ai_family)

-- What thrclt_open_new_conn leaves where it returns 0, and where it returns -1.
abbrev OpenKept : (ℕ → ℕ) → CltApp → (ok : Bool) → CltApp × Bool → Type 0
OpenKept base s ok (t, true) =
    IsCounted base t × (limits t ≡ (suc s.num_clients, s.nconns, s.connrate))
OpenKept base s ok (t, false) = IsCounted base t × (limits t ≡ limits s) × (ok ≡ false)

module _ (base : ℕ → ℕ) (s : CltApp) where
  start_connecting-OpenKept :
      (ok : Bool) (ai : AddrInfo) (z : CltApp × Option ℕ)
      → NewKept s.num_clients base s ok z
      → (y : CltApp × Bool) × (start_connecting ai (returned z) ≡ returned y) × OpenKept base s ok y
  unfolding start_connecting
  start_connecting-OpenKept ok ai (t, none) (k, l, f) =
      ((t, false), refl, (subst (λ n. IsBooked n base t) (sym (ap (λ y. y.0) l)) k, l, f))
  start_connecting-OpenKept ok ai (t, some c) (k, l) =
      let a = connect_of c ai.ai_addr ai.ai_addrlen in
      let u = set_clt_state conn_state_connecting c t in
      let v = use_comm c a u in
      let w =
        IsBooked-shape (suc s.num_clients) base t v
          (λ d.
            shape-use_comm d c a u
            ∙ shape-set_conn d c t (record (t.conns c) { state = conn_state_connecting }) refl refl)
          k in
      let m : limits v ≡ limits s =
        if_both (λ (x : CltApp). limits x ≡ limits s) (u.conns c).comm l l in
      (
        (record v { num_clients = suc v.num_clients }, true),
        refl,
        (
          subst (λ n. IsBooked (suc n) base v) (sym (ap (λ y. y.0) m)) w,
          ap (λ y. (suc y.0, y.1, y.2)) m,
        ),
      )

  thrclt_open_new_conn-OpenKept :
      (sys : OpenCalls) (ai : Option AddrInfo)
      → IsCounted base s
      → ((y : CltApp × Bool) × (thrclt_open_new_conn sys ai s ≡ returned y)
          × OpenKept base s (succeeds sys ai) y)
        ⊎ ((thrclt_open_new_conn sys ai s ≡ aborts) × (is_refused sys ai ≡ true))
  unfolding thrclt_open_new_conn
  thrclt_open_new_conn-OpenKept sys none k = inl ((s, false), refl, (k, refl, refl))
  thrclt_open_new_conn-OpenKept sys (some ai) k =
      elim (clt_conn_new-Newly s.num_clients base s k sys ai.ai_family) [
        | inl (z, e, w) ↦
            let (y, f, q) = start_connecting-OpenKept (new_succeeds sys ai.ai_family) ai z w in
            inl (y, ap (start_connecting ai) e ∙ f, q)
        | inr (e, q) ↦ inr (ap (start_connecting ai) e, q)
      ]

-- How many openings one round may do, and how many connections there may be.
abbrev pub most_opened : ℤ → ℕ
most_opened (pos r) = suc r
most_opened (negsuc r) = 1

abbrev pub most_clients : ℤ → ℕ
most_clients (pos n) = n
most_clients (negsuc n) = 0

abbrev rates : CltApp → ℤ × ℤ
rates s = (s.nconns, s.connrate)

-- A round from `s` with `i` openings done: it opens at most the rest, and not beyond the limit. It ends
-- where the rate or the limit is met, or an opening failed.
abbrev pub Rounded : (ℕ → ℕ) → RoundCalls → (i : ℕ) (s t : CltApp) → Type 0
Rounded base sys i s t =
    IsCounted base t
    × (rates t ≡ rates s)
    × (s.num_clients ≤ t.num_clients)
    × (t.num_clients + i ≤ s.num_clients + most_opened s.connrate)
    × ((t.num_clients ≡ s.num_clients) ⊎ (t.num_clients ≤ most_clients s.nconns))
    × (((t.num_clients + i ≡ s.num_clients + most_opened s.connrate)
          ⊎ (most_clients s.nconns ≤ t.num_clients))
        ⊎ ((j : ℕ) × (succeeds (sys.opens j) (sys.finds j) ≡ false)))

is_below-most_clients : (n : ℕ) (m : ℤ) → is_below n m ≡ ltb n (most_clients m)
is_below-most_clients n (pos m) = refl
is_below-most_clients n (negsuc m) = ground arith

is_above-most_opened : (n : ℕ) (m : ℤ) → is_above (suc n) m ≡ leb (most_opened m) (suc n)
is_above-most_opened n (pos m) = ground arith
is_above-most_opened n (negsuc m) = ground arith

-- A round reads a struct that it freed, where it was given no descriptor.
abbrev pub IsLost : RoundCalls → Ran CltApp → Type 0
IsLost sys r = (r ≡ aborts) × ((j : ℕ) × (is_refused (sys.opens j) (sys.finds j) ≡ true))

module _ (base : ℕ → ℕ) (sys : RoundCalls) where
  -- The loop of a round ends.
  abbrev Ends : (i : ℕ) → CltApp → Ran CltApp → Type 0
  Ends i s r = ((t : CltApp) × (r ≡ returned t) × Rounded base sys i s t) ⊎ IsLost sys r

  -- The first opening of a round, and the rest.
  Rounded-suc :
      (i : ℕ) (s t u : CltApp)
      → limits t ≡ (suc s.num_clients, s.nconns, s.connrate)
      → s.num_clients < most_clients s.nconns
      → Rounded base sys (suc i) t u
      → Rounded base sys i s u
  Rounded-suc i s t u l b (k, e, p, q, r, w) =
      let n = ap (λ y. y.0) l in
      let m = ap (λ y. most_opened y.2) l in
      let c = ap (λ y. most_clients y.1) l in
      (
        k,
        e ∙ ap (λ y. (y.1, y.2)) l,
        omega (arith, p, n),
        omega (arith, q, n, m),
        inr (elim r [ inl x ↦ omega (arith, x, n, b) | inr x ↦ omega (arith, x, c) ]),
        elim w [
          | inl (inl x) ↦ inl (inl (omega (arith, x, n, m)))
          | inl (inr x) ↦ inl (inr (omega (arith, x, c)))
          | inr x ↦ inr x
        ],
      )

  after_open-Ends :
      (go : CltApp → Ran CltApp) (i : ℕ) (s : CltApp) (y : CltApp × Bool)
      → OpenKept base s (succeeds (sys.opens i) (sys.finds i)) y
      → is_below s.num_clients s.nconns ≡ true
      → i < most_opened s.connrate
      → ((t : CltApp)
          → t.connrate ≡ s.connrate
          → suc i < most_opened t.connrate
          → IsCounted base t
          → Ends (suc i) t (go t))
      → Ends i s (after_open i go (returned y))
  unfolding after_open
  after_open-Ends go i s (t, false) (k, l, f) b p rest =
      let n = ap (λ y. y.0) l in
      inl (
        t,
        refl,
        (k, ap (λ y. (y.1, y.2)) l, omega (arith, n), omega (arith, n, p), inl n, inr (i, f)),
      )
  after_open-Ends go i s (t, true) (k, l) b p rest =
      let n = ap (λ y. y.0) l in
      let m = ap (λ y. most_opened y.2) l in
      let below : s.num_clients < most_clients s.nconns =
        ground (arith, b, is_below-most_clients s.num_clients s.nconns) in
      if_cases (Ends i s) (is_above (suc i) t.connrate)
        (λ a.
          let most : most_opened t.connrate ≤ suc i =
            ground (arith, a, is_above-most_opened i t.connrate) in
          inl (
            t,
            refl,
            (
              k,
              ap (λ y. (y.1, y.2)) l,
              omega (arith, n),
              omega (arith, n, p),
              inr (omega (arith, n, below)),
              inl (inl (omega (arith, n, m, most, p))),
            ),
          ))
        (λ a.
          let more : suc i < most_opened t.connrate =
            ground (arith, a, is_above-most_opened i t.connrate) in
          elim (rest t (ap (λ y. y.2) l) more k) [
            | inl (u, e, r) ↦ inl (u, e, Rounded-suc i s t u l below r)
            | inr x ↦ inr x
          ])

  open_more-Ends :
      (fuel i : ℕ) (s : CltApp)
      → i < most_opened s.connrate
      → most_opened s.connrate ≤ fuel + i
      → IsCounted base s
      → Ends i s (open_more fuel sys i s)
  unfolding open_more
  open_more-Ends zero i s p q k = ground (arith, p, q)
  open_more-Ends (suc fuel) i s p q k =
      let go = open_more fuel sys (suc i) in
      let done : Rounded base sys i s s → Ends i s (returned s) = λ r. inl (s, refl, r) in
      if_cases (Ends i s) (is_below s.num_clients s.nconns)
        (λ b. elim (thrclt_open_new_conn-OpenKept base s (sys.opens i) (sys.finds i) k) [
          | inl (y, e, o) ↦
              let f = ap (after_open i go) e in
              elim (after_open-Ends go i s y o b p (λ t c m kt.
                open_more-Ends fuel (suc i) t m (omega (arith, q, ap most_opened c)) kt)) [
                  | inl (t, g, r) ↦ inl (t, f ∙ g, r)
                  | inr (g, x) ↦ inr (f ∙ g, x)
                ]
          | inr (e, x) ↦ inr (ap (after_open i go) e, (i, x))
        ])
        (λ b. done (
          k,
          refl,
          omega arith,
          omega (arith, p),
          inl refl,
          inl (inr (ground (arith, b, is_below-most_clients s.num_clients s.nconns))),
        ))

  pub thrclt_ev_newconn_cb-Rounded :
      (fuel : ℕ) (now : Timeval) (s : CltApp)
      → most_opened s.connrate ≤ fuel
      → IsCounted base s
      → ((t : CltApp) × (thrclt_ev_newconn_cb fuel sys now s ≡ returned t) × Rounded base sys 0 s t)
        ⊎ IsLost sys (thrclt_ev_newconn_cb fuel sys now s)
  unfolding thrclt_ev_newconn_cb plan_round
  thrclt_ev_newconn_cb-Rounded fuel now s q k =
      elim (open_more-Ends fuel 0 s (positive s.connrate) (omega (arith, q)) k) [
        | inl (t, e, r) ↦ inl (
          record t { h = fde_add_timeout t.h t.ev_newconn (next_newconn now) },
          ap (plan_round now) e,
          r,
        )
        | inr (e, x) ↦ inr (ap (plan_round now) e, x)
      ]
    where
      positive : (m : ℤ) → 0 < most_opened m
      positive (pos m) = omega arith
      positive (negsuc m) = omega arith
