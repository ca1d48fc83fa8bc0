-- ===== src/Comm/Shutdown.antt =====
-- comm_close of lib/libiapp/comm.c for streams: the handlers that it queues, and the cleanup behind them.
use libiapp.Base.{◌≡◌, Bool, true, false, not, ◌&&◌, List, [], ◌∷◌, ◌++◌, ℕ, pos, if◌then◌else◌}
use libiapp.Comm.State.{
  FdeComm, closing, Call, read_done, write_done, World, SysResult, set_r, set_w,
}
use libiapp.Comm.Api.{comm_close}
use libiapp.Comm.Handlers.{reset_read, comm_cb_read_cb, comm_cb_write_cb}

-- An open object with nothing in progress but, perhaps, a read and a write.
pub record IsStream (c : FdeComm) : Type 0 where
  pub opened : c.is_closing ≡ false
  pub uncleaned : c.is_cleanup ≡ false
  pub no_accept : c.a.is_active ≡ false
  pub no_connect : c.co.is_active ≡ false
  pub no_udp_read : c.udp_r.is_active ≡ false
  pub no_udp_write : c.udp_w.is_active ≡ false

-- The callbacks that answer what is in progress.
abbrev pub read_told : World → List Call
read_told w = if w.c.r.is_active then read_done w.c.r.cb closing (pos 0) ∷ [] else []

abbrev pub write_told : World → List Call
write_told w = if w.c.w.is_active then write_done w.c.w.cb closing w.c.w.offset ∷ [] else []

-- What a closing branch leaves, for an owner that calls nothing.
abbrev read_closed : World → World
read_closed w =
    let v = set_r w (record (w.c.r) { is_active = false }) in
    reset_read (record v { calls = v.calls ++ read_done v.c.r.cb closing (pos 0) ∷ [] })

abbrev write_closed : World → World
write_closed w =
    let v = set_w w (record (w.c.w) { is_active = false; is_ready = false }) in
    record v { calls = v.calls ++ write_done v.c.w.cb closing v.c.w.offset ∷ [] }

-- A handler runs where comm_close queued it.
module _ (owner : Call → World → World) (read : ℕ → ℕ → SysResult)
    (write : ℕ → ℕ → ℕ → SysResult) where
  abbrev pub run_read : (queued : Bool) → World → World
  run_read queued w = if queued then comm_cb_read_cb owner read w else w

  abbrev pub run_write : (queued : Bool) → World → World
  run_write queued w = if queued then comm_cb_write_cb owner write w else w

  -- After comm_close, with the handlers that it put in order run in either order.
  abbrev pub Shut : World → Type 0
  Shut w =
      let r = w.c.r.is_active in
      let x = w.c.w.is_active in
      let z = comm_close w in
      let a = run_read r z in
      let b = run_write x z in
      let u = run_write x a in
      let v = run_read r b in
      (z.c.is_cleanup ≡ (not r && not x))
      × (a.c.is_cleanup ≡ not x)
      × (b.c.is_cleanup ≡ not r)
      × (u.c.is_cleanup ≡ true)
      × (v.c.is_cleanup ≡ true)
      × (u.calls ≡ w.calls ++ (read_told w ++ write_told w))
      × (v.calls ≡ w.calls ++ (write_told w ++ read_told w))

-- What is known of the closing object `z` that was `w`: whether its read and its write are still to be answered,
-- and the callbacks since.
record IsShutting (w : World) (r x : Bool) (ks : List Call) (z : World) : Type 0 where
  closed : z.c.is_closing ≡ true
  cleanup : z.c.is_cleanup ≡ (not r && not x)
  reading : z.c.r.is_active ≡ r
  writing : z.c.w.is_active ≡ x
  read_cb : z.c.r.cb ≡ w.c.r.cb
  write_cb : z.c.w.cb ≡ w.c.w.cb
  write_offset : z.c.w.offset ≡ w.c.w.offset
  no_accept : z.c.a.is_active ≡ false
  no_connect : z.c.co.is_active ≡ false
  no_udp_read : z.c.udp_r.is_active ≡ false
  no_udp_write : z.c.udp_w.is_active ≡ false
  told : z.calls ≡ w.calls ++ ks

-- What the parts of comm_close for a read and a write leave as it is.
abbrev kept :
    World → (Bool × Bool × Bool × Bool × ℕ × ℕ × ℕ) × (Bool × Bool × Bool × Bool) × List Call
kept w =
    let c = w.c in
    (
      (c.is_closing, c.is_cleanup, c.r.is_active, c.w.is_active, c.r.cb, c.w.cb, c.w.offset),
      (c.a.is_active, c.co.is_active, c.udp_r.is_active, c.udp_w.is_active),
      w.calls,
    )
