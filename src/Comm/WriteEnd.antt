-- ===== src/Comm/WriteEnd.antt =====
-- How a write of lib/libiapp/comm.c ends.
use libiapp.Base.{
  ℕ, zero, suc, ◌+◌, ◌-◌, ◌≤◌, ◌≡◌, refl, ap, ◌∙◌, Bool, true, false, not, none, some, [], ◌∷◌,
  ◌++◌, arith, ltb, if_both,
}
use libiapp.Comm.State.{
  Call, completed, eof, write_done, World, SysResult, got, would_block, interrupted, sys_error,
  comm_is_close_ready, comm_start_cleanup, set_w,
}
use libiapp.Comm.Api.{
  comm_mark_nonclose, comm_close, close_read, close_write, begin_read, register_read, read_if_ready,
  set_buffer, register_write, begin_write, write_if_ready, comm_read, comm_write, comm_listen,
  comm_connect, comm_udp_read, comm_udp_write_setup, comm_udp_write,
}
use libiapp.Comm.Handlers.{
  closing_or, deliver, comm_cb_write_complete, write_result, write_on, closing_write,
  comm_cb_write_cb,
}
use libiapp.Comm.Reach.{
  ApiStep, marks, closes, reads, writes, listens, connects, udp_reads, udp_sets_up, udp_writes, Api,
  done, and_then, IsOwner,
}
use libiapp.Comm.Ledger.{count_calls, count-snoc}

pub comm_start_cleanup-calls : (w : World) → (comm_start_cleanup w).calls ≡ w.calls
unfolding comm_start_cleanup
comm_start_cleanup-calls w = ground arith

close_read-calls : (w : World) → (close_read w).calls ≡ w.calls
unfolding close_read
close_read-calls w = ground arith

close_write-calls : (w : World) → (close_write w).calls ≡ w.calls
unfolding close_write
close_write-calls w = ground arith

comm_close-calls : (w : World) → (comm_close w).calls ≡ w.calls
unfolding comm_close
comm_close-calls w =
    let v = close_read (record w { c = record (w.c) { is_closing = true } }) in
    let e : (close_write v).calls ≡ w.calls = close_write-calls v ∙ close_read-calls _ in
    if_both (λ (u : World). u.calls ≡ w.calls) w.c.is_closing refl
      (if_both (λ (u : World). u.calls ≡ w.calls) (not (comm_is_close_ready (close_write v).c)) e
        (comm_start_cleanup-calls (close_write v) ∙ e))

-- Calls of comm.h run no callback.
pub ApiStep-calls : {w u : World} → ApiStep w u → u.calls ≡ w.calls
unfolding comm_mark_nonclose comm_read begin_read register_read read_if_ready comm_write set_buffer
    register_write begin_write write_if_ready comm_listen comm_connect comm_udp_read
    comm_udp_write_setup comm_udp_write
ApiStep-calls marks = refl
ApiStep-calls {w} closes = comm_close-calls w
ApiStep-calls (reads buf len cb) = ground arith
ApiStep-calls (writes nb start len cb) = ground arith
ApiStep-calls (listens cb) = ground arith
ApiStep-calls (connects limit sin slen cb) = ground arith
ApiStep-calls (udp_reads cb maxlen) = ground arith
ApiStep-calls (udp_sets_up cb qlen) = ground arith
ApiStep-calls (udp_writes fr) = ground arith

pub Api-calls : {w u : World} → Api w u → u.calls ≡ w.calls
Api-calls done = refl
Api-calls (and_then a s) = ApiStep-calls s ∙ Api-calls a

-- Does a call tell the owner that its write has completed?
abbrev pub is_completed : Call → Bool
is_completed (write_done cb completed n) = true
is_completed _ = false

-- How many writes were reported as completed.
abbrev pub completions : World → ℕ
completions w = count_calls is_completed w.calls

completions-closing_or :
    {n : ℕ} (w u : World) → completions w ≡ n → completions u ≡ n → completions (closing_or w u) ≡ n
unfolding closing_or
completions-closing_or {n} w u e f =
    if_both (λ (u : World). completions u ≡ n) (comm_is_close_ready w.c)
      (ap (count_calls is_completed) (comm_start_cleanup-calls w) ∙ e) f

module _ (owner : Call → World → World) (o : IsOwner owner) where
  pub completions-deliver :
      (k : Call) (w : World)
      → is_completed k ≡ false
      → completions (deliver owner k w) ≡ completions w
  unfolding deliver
  completions-deliver k w e =
      rw (Api-calls (o k (record w { calls = w.calls ++ k ∷ [] })))
        (rw (count-snoc, e) (omega arith))

  completions-comm_cb_write_complete :
      (w : World)
      → (completions (comm_cb_write_complete owner none w) ≡ completions w)
        × (completions (comm_cb_write_complete owner (some 0) w) ≡ completions w)
  unfolding comm_cb_write_complete
  completions-comm_cb_write_complete w = (
    completions-deliver _ _ refl,
    if_both (λ u. completions u ≡ completions w) _ refl (completions-deliver _ _ refl),
  )

  completions-write_result :
      (res : SysResult) (w : World) → completions (write_result owner res w) ≡ completions w
  unfolding write_result
  completions-write_result (would_block e) w = refl
  completions-write_result (got zero) w = (completions-comm_cb_write_complete w).1
  completions-write_result (got (suc n)) w = refl
  completions-write_result (interrupted e) w = (completions-comm_cb_write_complete w).0
  completions-write_result (sys_error e) w = (completions-comm_cb_write_complete w).0

  completions-write_on :
      (write : ℕ → ℕ → ℕ → SysResult) (w : World)
      → completions (write_on owner write w) ≡ completions w
  unfolding write_on
  completions-write_on write w =
      if_both (λ u. completions u ≡ completions w) _ refl (completions-write_result _ w)

  completions-closing_write : (w : World) → completions (closing_write owner w) ≡ completions w
  unfolding closing_write
  completions-closing_write w = completions-deliver _ _ refl

  -- No run of comm_cb_write_cb, the one place that answers a write, ever tells the owner that a
  -- write has completed: whatever write(2) returns, the object is closing or not, and whatever the
  -- owner calls from its callback, the number of calls with FDE_COMM_CB_COMPLETED stays the same.
  pub completions-comm_cb_write_cb :
      (write : ℕ → ℕ → ℕ → SysResult) (w : World)
      → completions (comm_cb_write_cb owner write w) ≡ completions w
  unfolding comm_cb_write_cb
  completions-comm_cb_write_cb write w =
      let v = closing_write owner w in
      if_both (λ (u : World). completions u ≡ completions w) w.c.is_closing
        {x = closing_or v (write_on owner write v)} {y = write_on owner write w}
        (completions-closing_or v (write_on owner write v) (completions-closing_write w)
          (completions-write_on write v ∙ completions-closing_write w))
        (completions-write_on write w)

module _ (owner : Call → World → World) where
  comm_cb_write_cb-got :
      (write : ℕ → ℕ → ℕ → SysResult) (w : World) (n : ℕ)
      → w.c.is_closing ≡ false
      → w.c.w.is_active ≡ true
      → w.c.w.is_ready ≡ true
      → write w.c.w.nb (w.c.w.nb_start_offset + w.c.w.offset) (w.c.w.len - w.c.w.offset)
        ≡ got (suc n)
      → comm_cb_write_cb owner write w ≡ set_w w (record (w.c.w) { offset = w.c.w.offset + suc n })
  unfolding comm_cb_write_cb write_on write_result
  comm_cb_write_cb-got write w n cl a r e = ground arith

  module _ (o : IsOwner owner) where
    deliver-calls : (k : Call) (w : World) → (deliver owner k w).calls ≡ w.calls ++ k ∷ []
    unfolding deliver
    deliver-calls k w = Api-calls (o k (record w { calls = w.calls ++ k ∷ [] }))

    comm_cb_write_cb-eof :
        (write : ℕ → ℕ → ℕ → SysResult) (w : World)
        → w.c.is_closing ≡ false
        → w.c.w.is_active ≡ true
        → w.c.w.is_ready ≡ true
        → w.c.w.len ≤ w.c.w.offset
        → write w.c.w.nb (w.c.w.nb_start_offset + w.c.w.offset) (w.c.w.len - w.c.w.offset) ≡ got 0
        → (comm_cb_write_cb owner write w).calls
          ≡ w.calls ++ write_done w.c.w.cb eof w.c.w.offset ∷ []
    unfolding comm_cb_write_cb write_on write_result comm_cb_write_complete
    comm_cb_write_cb-eof write w cl a r l e =
        let d =
          deliver-calls (write_done w.c.w.cb eof w.c.w.offset)
            (set_w w (record (w.c.w) { is_active = false })) in
        let b : ltb w.c.w.offset w.c.w.len ≡ false = ground arith in ground arith

    -- An open object on which a write of `len` bytes is in progress, nothing of it written yet, and
    -- a socket that takes all the bytes at once and answers 0 to a write of no bytes. Two runs of
    -- comm_cb_write_cb make one call, which reports an EOF after `len` bytes.
    pub comm_cb_write_cb-comm_cb_write_cb :
        (write : ℕ → ℕ → ℕ → SysResult) (w : World) (n : ℕ)
        → w.c.is_closing ≡ false
        → w.c.w.is_active ≡ true
        → w.c.w.is_ready ≡ true
        → w.c.w.offset ≡ 0
        → w.c.w.len ≡ suc n
        → ((nb i k : ℕ) → write nb i k ≡ got k)
        → (comm_cb_write_cb owner write (comm_cb_write_cb owner write w)).calls
          ≡ w.calls ++ write_done w.c.w.cb eof w.c.w.len ∷ []
    comm_cb_write_cb-comm_cb_write_cb write w n cl a r z l all =
        let u = set_w w (record (w.c.w) { offset = w.c.w.offset + suc n }) in
        let g : write w.c.w.nb (w.c.w.nb_start_offset + w.c.w.offset) (w.c.w.len - w.c.w.offset)
            ≡ got (suc n) =
          all _ _ _ ∙ ap got (omega arith) in
        let h : write u.c.w.nb (u.c.w.nb_start_offset + u.c.w.offset) (u.c.w.len - u.c.w.offset)
            ≡ got 0 =
          all _ _ _ ∙ ap got (omega arith) in
        rw (comm_cb_write_cb-got write w n cl a r g) (
          comm_cb_write_cb-eof write u cl a r (omega arith) h
          ∙ ap (λ k. w.calls ++ write_done w.c.w.cb eof k ∷ []) (omega arith))
