-- ===== src/Thr/Group.antt =====
-- The functions of lib/libiapp/thr.c.
use libiapp.Base.{
  ℕ, zero, suc, Bool, true, false, not, Option, none, some, List, [], ◌∷◌, ℤ, pos, minus_one,
  if◌then◌else◌, store,
}
use libiapp.Fde.Event.{FdeHead, user}
use libiapp.Fde.Register.{fde_ctx_new, fde_create, fde_free}
use libiapp.Fde.Kq.{fde_ue_push}
use libiapp.Debug.State.{Text, DebugState, debug_type_print}
use libiapp.Debug.Log.{debug_register, debug_setmask}
use libiapp.Thr.State.{Thr, ThrGroup, ThrHeap, take, give, ThrCalls}

-- An event loop is put into memory.
unfoldable pub put_loop : ThrHeap → FdeHead → ThrHeap
unfolding store
put_loop m g = record m {
  heads = m.next_head ∷ m.heads;
  next_head = suc m.next_head;
  loops = store m.loops m.next_head g;
}

-- libiapp_thr_create behind fde_ctx_new. Where fde_create fails, the struct is freed, the event loop is not.
unfoldable pub with_loop :
    (calloc_event : Bool) (note_eof cb : ℕ)
    → ThrHeap
    → (t : ℕ) → Option FdeHead
    → ThrHeap × Option Thr
unfolding put_loop
with_loop calloc_event note_eof cb m t none = (give m t, none)
with_loop calloc_event note_eof cb m t (some g) =
    let (g', f) = fde_create calloc_event note_eof g minus_one user true cb in
    let u = put_loop m g' in
    elim f [
      | none ↦ (give u t, none)
      | some i ↦ (u, some (record { self = t; h = m.next_head; f_wakeup = i; active = false }))
    ]

-- libiapp_thr_create. `cb` is libiapp_thr_wakeup_cb.
unfoldable pub libiapp_thr_create : ThrCalls → (note_eof cb : ℕ) → ThrHeap → ThrHeap × Option Thr
unfolding with_loop
libiapp_thr_create sys note_eof cb m =
    if sys.calloc
    then with_loop sys.calloc_event note_eof cb (take m) m.next_block
        (fde_ctx_new sys.calloc_head sys.kqueue)
    else (m, none)

-- libiapp_thr_destroy of a thread as libiapp_thr_create made it. fde_ctx_free does nothing.
unfoldable pub libiapp_thr_destroy : ThrHeap → Thr → ThrHeap
unfolding store
libiapp_thr_destroy m t =
    give (record m { loops = store m.loops t.h (fde_free (m.loops t.h) t.f_wakeup) }) t.self

-- The thread that was made goes into the array, before those that are made after it; the first failure ends
-- the loop.
unfoldable pub keep_thread :
    ThrHeap → Option Thr → ThrHeap × List Thr × Bool → ThrHeap × List Thr × Bool
keep_thread u none rest = (u, [], false)
keep_thread u (some t) (m, ts, ok) = (m, record t { active = true } ∷ ts, ok)

-- The loop of libiapp_thr_group_create: the threads up to the first that fails, and whether all were made.
unfoldable pub create_threads :
    (sys : ℕ → ThrCalls) (note_eof cb : ℕ) (n i : ℕ) → ThrHeap → ThrHeap × List Thr × Bool
unfolding keep_thread
create_threads sys note_eof cb zero i m = (m, [], true)
create_threads sys note_eof cb (suc n) i m =
    let (u, t) = libiapp_thr_create (sys i) note_eof cb m in
    keep_thread u t (create_threads sys note_eof cb n (suc i) u)

-- The loop behind `error`.
unfoldable pub destroy_threads : ThrHeap → List Thr → ThrHeap
unfolding libiapp_thr_destroy
destroy_threads m [] = m
destroy_threads m (t ∷ ts) = destroy_threads (libiapp_thr_destroy m t) ts

-- The end of libiapp_thr_group_create.
unfoldable pub conclude : (tg array n : ℕ) → ThrHeap × List Thr × Bool → ThrHeap × Option ThrGroup
unfolding destroy_threads
conclude tg array n (m, ts, true) =
    (m, some (record { self = tg; array = array; n_threads = n; threads = ts }))
conclude tg array n (m, ts, false) = (give (give (destroy_threads m ts) array) tg, none)

-- libiapp_thr_group_create.
unfoldable pub libiapp_thr_group_create :
    (calloc calloc_array : Bool) (sys : ℕ → ThrCalls) (note_eof cb : ℕ)
    → ThrHeap
    → (nthreads : ℕ) → ThrHeap × Option ThrGroup
unfolding conclude create_threads
libiapp_thr_group_create calloc calloc_array sys note_eof cb m nthreads =
    let tg = m.next_block in
    let array = suc tg in
    if not calloc
    then (m, none)
    else if not calloc_array
    then (give (take m) tg, none)
    else conclude tg array nthreads (create_threads sys note_eof cb nthreads 0 (take (take m)))

-- libiapp_thr_group_start: the threads that pthread_create(3) started, up to the first failure.
unfoldable pub start_threads : (pthread_create : ℕ → Bool) → (i : ℕ) → List Thr → List Thr × Bool
start_threads pthread_create i [] = ([], true)
start_threads pthread_create i (t ∷ ts) =
    let (us, ok) = start_threads pthread_create (suc i) ts in
    if pthread_create i then (t ∷ us, ok) else ([], false)

unfoldable pub libiapp_thr_group_start : (pthread_create : ℕ → Bool) → ThrGroup → List Thr × Bool
unfolding start_threads
libiapp_thr_group_start pthread_create tg = start_threads pthread_create 0 tg.threads

-- libiapp_thr_group_stop.
unfoldable pub stop_threads : List Thr → List Thr
stop_threads [] = []
stop_threads (t ∷ ts) = record t { active = false } ∷ stop_threads ts

unfoldable pub libiapp_thr_group_stop : ThrGroup → ThrGroup × Bool
unfolding stop_threads
libiapp_thr_group_stop tg = (record tg { threads = stop_threads tg.threads }, true)

-- libiapp_thr_start: `active n` is what the n-th look at the flag sees, and `run` is fde_runloop with a
-- second's timeout, which may end without a result.
unfoldable pub libiapp_thr_start :
    (active : ℕ → Bool) (run : FdeHead → Option FdeHead) (fuel n : ℕ) → FdeHead → Option FdeHead
libiapp_thr_start active run zero n g = none
libiapp_thr_start active run (suc fuel) n g = elim (active n) [
  | false ↦ some g
  | true ↦ elim (run g) [ none ↦ none | some g' ↦ libiapp_thr_start active run fuel (suc n) g' ]
]

-- libiapp_thr_group_join: the threads that are waited for, in their order.
unfoldable pub libiapp_thr_group_join : ThrGroup → List Thr × Bool
libiapp_thr_group_join tg = (tg.threads, true)

-- libiapp_thr_wakeup of the target thread.
unfoldable pub libiapp_thr_wakeup : (trigger : ℕ) (ret : ℤ) → ThrHeap → Thr → ThrHeap
unfolding store
libiapp_thr_wakeup trigger ret m target = record m {
  loops = store m.loops target.h (fde_ue_push trigger ret (m.loops target.h) target.f_wakeup).0;
}

-- libiapp_thr_init: the section "thr", with both of its bits printed. Where no section is free, its mask would
-- be written outside the array, and there is no result.
unfoldable pub libiapp_thr_init : (strdup : Option Text) → DebugState → Option DebugState
libiapp_thr_init strdup d =
    let (u, s) = debug_register strdup d (some (116 ∷ 104 ∷ 114 ∷ [])) in
    elim s [ pos i ↦ some (debug_setmask u i debug_type_print (true ∷ true ∷ [])) | _ ↦ none ]
