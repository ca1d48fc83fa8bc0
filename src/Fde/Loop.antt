-- ===== src/Fde/Loop.antt =====
-- lib/libiapp/fde.c: the passes of fde_runloop. What a program keeps beside the event loop, and what
-- its callbacks do, is the parameter `Program`: a callback may change the event loop only by the
-- calls that `Step` lists, which is what fde.h offers to it.
use libiapp.Base.{
  not, ℕ, zero, suc, ◌+◌, ◌%◌, ◌^◌, ◌*◌, Bool, true, false, Option, none, some, List, [], ◌∷◌, ◌==◌,
  if◌then◌else◌, ◌≡◌, ◌++◌, remove, ℤ,
}
use libiapp.Fde.Event.{FdeType, timer, Timeval, FdeHead, put, update}
use libiapp.Fde.Register.{fde_add, fde_delete, fde_free, fde_create}
use libiapp.Fde.Timeout.{timeval_cmp, lt_zero, fde_add_timeout, fde_t_get_timeout}

-- One call of the API of fde.h on an event whose memory is allocated.
pub data Step (h : FdeHead) : FdeHead → Type 0 where
  adds : (i : ℕ) → (h.fdes i).allocated ≡ true → Step h (fde_add h i)
  adds_timeout :
      (i : ℕ) (tv : Timeval)
      → (h.fdes i).allocated ≡ true
      → (h.fdes i).f_type ≡ timer
      → Step h (fde_add_timeout h i tv)
  deletes : (i : ℕ) → (h.fdes i).allocated ≡ true → Step h (fde_delete h i)
  frees : (i : ℕ) → (h.fdes i).allocated ≡ true → Step h (fde_free h i)
  creates :
      (calloc : Bool) (note_eof : ℕ) (fd : ℤ) (t : FdeType) (persist : Bool) (cb : ℕ)
      → Step h (fde_create calloc note_eof h fd t persist cb).0

pub data Reach (h : FdeHead) : FdeHead → Type 0 where
  here : Reach h h
  next_call : {g k : FdeHead} → Reach h g → Step g k → Reach h k

-- A program over the event loop. `call c i w` is the callback numbered `c` run for the event `i`.
pub record Program (W : Type 0) : Type 0 where
  pub head : W → FdeHead
  pub set_head : FdeHead → W → W
  pub call : ℕ → ℕ → W → W
  pub head-set_head : (h : FdeHead) (w : W) → head (set_head h w) ≡ h
  pub call-Reach : (c i : ℕ) (w : W) → Reach (head w) (head (call c i w))

-- What kevent(2) reports for one event: the address in `udata`, and under EV_ERROR the error number.
pub data Errno : Type 0 where
  enoent einval ebadf eperm epipe : Errno
  other_errno : ℕ → Errno

pub record Report : Type 0 where
  pub udata : Option ℕ
  pub error : Option Errno

-- The result of kevent(2): an error, or a list of reports, empty on a timeout.
pub data KeventResult : Type 0 where
  failed : KeventResult
  reports : List Report → KeventResult

-- The `switch` on an error report: is the callback still made?
unfoldable pub goes_on : Option Errno → Bool
goes_on none = true
goes_on (some eperm) = true
goes_on (some epipe) = true
goes_on (some _) = false

-- The kernel takes the changes in `pending` in each call.
unfoldable pub take_pending : FdeHead → FdeHead
take_pending h = record h { submitted = h.submitted ++ h.pending; pending = [] }

-- A report for an event that does not persist takes it off the list of active events.
unfoldable pub complete : FdeHead → ℕ → FdeHead
unfolding update
complete h i =
    let f = h.fdes i in
    if f.persist
    then h
    else record (put h i (record f { is_active = false })) { f_head = remove i h.f_head }

module _ {W : Type 0} (p : Program W) where
  open p use {head, set_head, call}

  -- The callback of the event at `i`, found in the memory as the caller left it.
  unfoldable pub fire : ℕ → W → W
  fire i w = call ((head w).fdes i).cb i w

  -- The `while` of fde_cb_runloop, on fuel; the result holds the events that were called.
  unfoldable pub cb_loop : ℕ → ℕ → W → Option (List ℕ × W)
  unfolding fire
  cb_loop zero cur w = none
  cb_loop (suc fuel) cur w = elim (head w).f_cb_head [
    | [] ↦ some ([], w)
    | i ∷ _ ↦
        let rest = cb_loop fuel cur (fire i (set_head (fde_delete (head w) i) w)) in
        if ((head w).fdes i).f_cb_genid == cur
        then elim rest [ none ↦ none | some (fired, w') ↦ some (i ∷ fired, w') ]
        else some ([], w)
  ]

  -- The counter of fde_cb_runloop is a uint32_t.
  unfoldable pub next_genid : W → W
  next_genid w = set_head (record h { f_cb_genid = (h.f_cb_genid + 1) % 2 ^ 32 }) w
    where
      h : FdeHead
      h = head w

  -- fde_cb_runloop.
  unfoldable pub fde_cb_runloop : ℕ → W → Option (List ℕ × W)
  unfolding cb_loop next_genid
  fde_cb_runloop fuel w = cb_loop fuel (head w).f_cb_genid (next_genid w)

  -- fde_t_runloop.
  unfoldable pub fde_t_runloop : ℕ → Timeval → W → Option (List ℕ × W)
  unfolding fire timeval_cmp
  fde_t_runloop zero tv w = none
  fde_t_runloop (suc fuel) tv w = elim (head w).f_t_head [
    | [] ↦ some ([], w)
    | i ∷ _ ↦
        let rest = fde_t_runloop fuel tv (fire i (set_head (fde_delete (head w) i) w)) in
        if lt_zero (timeval_cmp tv ((head w).fdes i).tv)
        then some ([], w)
        else elim rest [ none ↦ none | some (fired, w') ↦ some (i ∷ fired, w') ]
  ]

  -- `if (f->cb)`: a missing callback, numbered 0, is reported on stderr.
  unfoldable pub call_back : ℕ → W → W
  unfolding fire
  call_back i w = if ((head w).fdes i).cb == 0 then w else fire i w

  -- The test of `f->is_active`, and the call. Where the event has been freed meanwhile, that reads freed memory, and
  -- nothing is known of what follows: `none`.
  unfoldable pub if_active : ℕ → W → Option W
  unfolding complete call_back
  if_active i w =
      let f = (head w).fdes i in
      if not f.allocated
      then none
      else if f.is_active
      then some (call_back i (set_head (complete (head w) i) w))
      else some w

  -- One round of the `for` in fde_rw_runloop.
  unfoldable pub rw_step : Report → W → Option W
  unfolding goes_on if_active
  rw_step r w = elim r.udata [
    | none ↦ some w
    | some i ↦ if goes_on r.error then if_active i w else some w
  ]

  unfoldable pub rw_loop : List Report → W → Option W
  unfolding rw_step
  rw_loop [] w = some w
  rw_loop (r ∷ rs) w = elim (rw_step r w) [ none ↦ none | some u ↦ rw_loop rs u ]

  -- fde_rw_runloop.
  unfoldable pub fde_rw_runloop : KeventResult → W → Option W
  unfolding take_pending rw_loop
  fde_rw_runloop failed w = some (set_head (take_pending (head w)) w)
  fde_rw_runloop (reports rs) w = rw_loop rs (set_head (take_pending (head w)) w)

  -- The sleep that fde_runloop hands to kevent(2), as seconds and nanoseconds.
  unfoldable pub sleep_time : Timeval → Timeval → W → ℕ × ℕ
  unfolding fde_t_get_timeout
  sleep_time now timeout w = elim (head w).f_cb_head [
    | [] ↦ (ts.tv_sec, ts.tv_usec * 1000)
    | _ ∷ _ ↦ (0, 0)
  ]
    where
      ts : Timeval
      ts = fde_t_get_timeout (head w) now timeout

  -- fde_runloop. `kevent` is the kernel: what it reports for the sleep that it is given. The two
  -- passes have fuel of their own; `none` is that it ran out, or that freed memory was read.
  unfoldable pub fde_runloop :
      (kevent : ℕ × ℕ → W → KeventResult) (cb_fuel t_fuel : ℕ) → Timeval → Timeval → W → Option W
  unfolding fde_cb_runloop fde_t_runloop fde_rw_runloop sleep_time
  fde_runloop kevent cb_fuel t_fuel now timeout w = elim (fde_cb_runloop cb_fuel w) [
    | none ↦ none
    | some (_, w') ↦ elim (fde_t_runloop t_fuel now w') [
      | none ↦ none
      | some (_, v) ↦ fde_rw_runloop (kevent (sleep_time now timeout v) v) v
    ]
  ]
