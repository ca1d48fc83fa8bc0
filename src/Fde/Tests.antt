-- ===== src/Fde/Tests.antt =====
-- Small event loops, and the theorems on lib/libiapp/fde.c at work on them.
use libiapp.Base.{
  ℕ, ◌<◌, ◌==◌, ltb, ◌&&◌, none, Bool, if_cases, if◌then◌else◌, ◌≡◌, refl, inr, true, false, some,
  List, [], ◌∷◌, ◌++◌, arith, pos, has, length,
}
use mathlib.Core.List.{Sublist}
use mathlib.Core.Option.{some-injective}
use mathlib.Core.Path.{subst}
use libiapp.Fde.Event.{
  FdeType, read, callback, timer, is_callback, is_timer, Fde, FdeHead, Timeval, Kevent,
}
use libiapp.Fde.Register.{
  blank, fde_ctx_new, fde_create, fde_add, fde_cb_add, fde_rw_add, fde_delete, fde_free,
}
use libiapp.Fde.Kq.{add_flags, fde_kq_push}
use libiapp.Fde.Timeout.{timeval_cmp, fde_add_timeout, insert_timer, last}
use libiapp.Fde.Loop.{
  adds, adds_timeout, creates, Reach, here, next_call, Program, KeventResult, reports, failed,
  fde_cb_runloop, fde_t_runloop, fde_runloop,
}
use libiapp.Fde.CallbackPass.{IsReady, Reach-IsReady, fde_ctx_new-IsReady}
use libiapp.Fde.CallbackPass.Run.{Passed, fde_cb_runloop-Passed, fde_cb_runloop_all, nothing}
use libiapp.Fde.TimerPass.{due, due_count}
use libiapp.Fde.TimerPass.Run.{Ran, still, fde_t_runloop-Ran}
use libiapp.Fde.Poll.{IsPolled}
use libiapp.Fde.Poll.Round.{IsAnswer, fde_runloop-IsReady}
use libiapp.Fde.Time.{IsNormal}
use libiapp.Fde.TimerOrder.{IsOrdered, insert_timer-IsOrdered, insert_timer_disorders}
use libiapp.Fde.Changes.{changes, add-delete_deletes, fde_free_gone}

-- A new event loop.
abbrev empty_loop : FdeHead
empty_loop = record {
  f_head = [];
  f_cb_head = [];
  f_t_head = [];
  pending = [];
  submitted = [];
  f_cb_genid = 0;
  fdes = λ i. blank;
  next = 0;
}

made : fde_ctx_new true true ≡ some empty_loop
unfolding fde_ctx_new
made = refl

empty_loop-IsReady : IsReady empty_loop
empty_loop-IsReady = fde_ctx_new-IsReady made here

abbrev with_event : FdeType → FdeHead → FdeHead
with_event t h = (fde_create true 0 h (pos 5) t false 7).0

-- Two callbacks, both queued.
abbrev two_callbacks : FdeHead
two_callbacks = fde_add (fde_add (with_event callback (with_event callback empty_loop)) 0) 1

-- Two timers, due at 10 and at 20 seconds.
abbrev at : ℕ → Timeval
at s = record { tv_sec = s; tv_usec = 0 }

abbrev two_timers : FdeHead
two_timers =
    fde_add_timeout (fde_add_timeout (with_event timer (with_event timer empty_loop)) 0 (at 20)) 1
      (at 10)

-- An event for reads on a descriptor, registered.
abbrev one_read : FdeHead
one_read = fde_add (with_event read empty_loop) 0

two_callbacks-Reach : Reach empty_loop two_callbacks
unfolding fde_create fde_add fde_cb_add
two_callbacks-Reach =
    next_call
      (next_call
        (next_call (next_call here (creates true 0 (pos 5) callback false 7))
          (creates true 0 (pos 5) callback false 7))
        (adds 0 refl))
      (adds 1 refl)

two_timers-Reach : Reach empty_loop two_timers
unfolding fde_create fde_add_timeout
two_timers-Reach =
    next_call
      (next_call
        (next_call (next_call here (creates true 0 (pos 5) timer false 7))
          (creates true 0 (pos 5) timer false 7))
        (adds_timeout 0 (at 20) refl refl))
      (adds_timeout 1 (at 10) refl refl)

one_read-Reach : Reach empty_loop one_read
unfolding fde_create
one_read-Reach = next_call (next_call here (creates true 0 (pos 5) read false 7)) (adds 0 refl)

-- The program whose callbacks do nothing.
abbrev passive : Program FdeHead
passive = record {
  head = λ h. h;
  set_head = λ h w. h;
  call = λ c i w. w;
  head-set_head = λ h w. refl;
  call-Reach = λ c i w. here;
}

fde_ctx_new-IsReady_example : IsReady two_callbacks
fde_ctx_new-IsReady_example = fde_ctx_new-IsReady made two_callbacks-Reach

two_callbacks-IsReady : IsReady two_callbacks
two_callbacks-IsReady = Reach-IsReady two_callbacks-Reach empty_loop-IsReady

two_timers-IsReady : IsReady two_timers
two_timers-IsReady = Reach-IsReady two_timers-Reach empty_loop-IsReady

two_callbacks_queue : two_callbacks.f_cb_head ≡ 0 ∷ 1 ∷ []
unfolding fde_create fde_add fde_cb_add
two_callbacks_queue = refl

two_callbacks_short : length two_callbacks.f_cb_head < 3
unfolding fde_create fde_add fde_cb_add
two_callbacks_short = omega arith

two_timers-due : due (at 15) two_timers < 2
unfolding due_count fde_create fde_add_timeout
two_timers-due = omega arith

two_timers-IsNormal : IsNormal (two_timers.fdes 1).tv
unfolding fde_create fde_add_timeout
two_timers-IsNormal = omega arith

two_timers_queue : two_timers.f_t_head ≡ 1 ∷ 0 ∷ []
unfolding fde_create fde_add_timeout
two_timers_queue = refl

fde_cb_runloop-Passed_example :
    Passed passive Sublist two_callbacks.f_cb_head (fde_cb_runloop passive 3 two_callbacks)
fde_cb_runloop-Passed_example =
    fde_cb_runloop-Passed passive 3 two_callbacks two_callbacks-IsReady.sound
      two_callbacks-IsReady.current two_callbacks_short

fde_cb_runloop_all_example :
    Passed passive
      (◌≡◌ {A = List ℕ})
      two_callbacks.f_cb_head
      (fde_cb_runloop passive 3 two_callbacks)
fde_cb_runloop_all_example =
    fde_cb_runloop_all passive (λ c i w. nothing) 3 two_callbacks two_callbacks-IsReady.sound
      two_callbacks-IsReady.current two_callbacks_short

fde_t_runloop-Ran_example :
    Ran passive (at 15) (due (at 15) two_timers) (fde_t_runloop passive 2 (at 15) two_timers)
fde_t_runloop-Ran_example =
    fde_t_runloop-Ran passive (at 15) (λ c i w. still) 2 two_timers two_timers-IsReady
      two_timers-due

-- A loop with the two callbacks and an event for reads, and a kernel that reports this event while it is there.
abbrev mixed : FdeHead
mixed = fde_add (with_event read two_callbacks) 2

abbrev is_read : FdeType → Bool
is_read read = true
is_read _ = false

abbrev is_there : FdeHead → Bool
is_there h = ltb 2 h.next && is_read (h.fdes 2).f_type && (h.fdes 2).allocated

abbrev kernel : ℕ × ℕ → FdeHead → KeventResult
kernel t h = if is_there h then reports (record { udata = some 2; error = none } ∷ []) else failed

is_read-others : (t : FdeType) → is_read t ≡ true → (is_callback t ≡ false) × (is_timer t ≡ false)
is_read-others read e = (refl, refl)
is_read-others callback e = cc
is_read-others timer e = cc
is_read-others _ e = cc

names_read :
    (h : FdeHead) → is_there h ≡ true → IsPolled h (record { udata = some 2; error = none })
names_read h e i q =
    let o = is_read-others (h.fdes 2).f_type (ground (arith, e)) in
    subst
      (λ j.
        (j < h.next)
        × ((h.fdes j).allocated ≡ true)
        × (is_callback (h.fdes j).f_type ≡ false)
        × (is_timer (h.fdes j).f_type ≡ false))
      (some-injective 2 i q) (ground (arith, e), ground (arith, e), o.0, o.1)

kernel-IsAnswer : (t : ℕ × ℕ) (h : FdeHead) → IsAnswer passive h (kernel t h)
kernel-IsAnswer t h =
    if_cases (IsAnswer passive h) (is_there h)
      {x = reports (record { udata = some 2; error = none } ∷ [])} {y = failed}
      (λ e. (names_read h e, tt)) (λ e. tt)

mixed-IsReady : IsReady mixed
unfolding fde_create fde_add fde_cb_add
mixed-IsReady =
    Reach-IsReady
      (next_call (next_call two_callbacks-Reach (creates true 0 (pos 5) read false 7))
        (adds 2 refl))
      empty_loop-IsReady

mixed_short : length mixed.f_cb_head < 3
unfolding fde_create fde_add fde_cb_add fde_rw_add add_flags fde_kq_push
mixed_short = omega arith

-- The report is for the event, which is there.
mixed_reported : kernel (0, 0) mixed ≡ reports (record { udata = some 2; error = none } ∷ [])
unfolding fde_create fde_add fde_cb_add fde_rw_add add_flags fde_kq_push
mixed_reported = refl

fde_runloop-IsReady_example :
    (t_fuel : ℕ) × (g : FdeHead) × (fde_runloop passive kernel 3 t_fuel (at 15) (at 1) mixed
      ≡ some g)
    × IsReady g
fde_runloop-IsReady_example =
    fde_runloop-IsReady passive kernel kernel-IsAnswer (λ c i w nc nt j a. a) (at 15) (at 1)
      (λ c i w. still) 3 mixed mixed-IsReady mixed_short

-- Events that are due at 10, 20, 30 and, for the one at 3, 25 seconds.
abbrev times : ℕ → Fde
times i = record blank {
  tv = at (if i == 0 then 10 else if i == 1 then 20 else if i == 2 then 30 else 25);
}

insert_timer-IsOrdered_example : IsOrdered times (insert_timer times (at 25) 3 (0 ∷ 1 ∷ []))
unfolding timeval_cmp last has
insert_timer-IsOrdered_example =
    insert_timer-IsOrdered times 3 (0 ∷ 1 ∷ []) (ground arith) ((refl, tt), (tt, tt)) (inr refl)

insert_timer_disorders_example :
    (insert_timer times (at 25) 3 (0 ∷ 1 ∷ 2 ∷ []) ≡ 0 ∷ 3 ∷ 1 ∷ 2 ∷ [])
    × ¬ IsOrdered times (insert_timer times (at 25) 3 (0 ∷ 1 ∷ 2 ∷ []))
unfolding timeval_cmp last
insert_timer_disorders_example = insert_timer_disorders times 3 0 1 (2 ∷ []) refl refl refl

add-delete_deletes_example :
    (k : Kevent) × (changes (fde_add (fde_delete one_read 0) 0)
      ≡ changes (fde_delete one_read 0) ++ k ∷ [])
    × (k.flags.ev_add ≡ true)
    × (k.flags.ev_delete ≡ true)
unfolding fde_create fde_add fde_rw_add add_flags
add-delete_deletes_example = add-delete_deletes one_read 0 refl refl

fde_free_gone_example :
    let g = fde_free two_callbacks 1 in
    ((g.fdes 1).allocated ≡ false)
    × (has 1 g.f_head ≡ false)
    × (has 1 g.f_cb_head ≡ false)
    × (has 1 g.f_t_head ≡ false)
unfolding fde_create fde_add fde_cb_add
fde_free_gone_example = fde_free_gone two_callbacks 1 two_callbacks-IsReady.sound refl
