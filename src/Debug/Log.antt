-- ===== src/Debug/Log.antt =====
-- The functions of lib/libidebug/debug.c. What strdup(3) and fopen(3) answer are arguments.
use libiapp.Base.{
  ℕ, zero, suc, Bool, true, false, not, ◌&&◌, ◌||◌, Option, none, some, List, [], ◌∷◌, ◌++◌, ℤ, pos,
  minus_one, length, leb, ltb, ◌==◌, if◌then◌else◌, store,
}
use libiapp.Debug.State.{
  Text, Mask, debug_section_max, debug_type_max, debug_type_print, debug_type_log,
  debug_type_syslog, DebugState, meets, strncmp_equal,
}

-- debug_init.
unfoldable pub debug_init : DebugState → DebugState
debug_init d =
    if d.initialised
    then d
    else record d { debug_level_strs = λ i. none; debug_levels = λ t s. []; initialised = true }

-- debug_shutdown: no section has a name any more.
unfoldable pub debug_shutdown : DebugState → DebugState
debug_shutdown d = if not d.initialised then d else record d {
  debug_level_strs = λ i. if ltb i debug_section_max then none else d.debug_level_strs i;
  debug_levels = λ t s. [];
  initialised = false;
}

-- The loop of debug_register: the first of `n` sections from `i` on that has no name.
unfoldable pub first_free : (ℕ → Option Text) → (n i : ℕ) → Option ℕ
first_free strs zero i = none
first_free strs (suc n) i = elim (strs i) [ none ↦ some i | some x ↦ first_free strs n (suc i) ]

-- The array of arrays, with one mask changed.
unfoldable pub set_level : (ℕ → ℕ → Mask) → (t s : ℕ) → Mask → ℕ → ℕ → Mask
unfolding store
set_level levels t s mask = store levels t (store (levels t) s mask)

-- debug_register. `strdup` is what strdup(3) returns.
unfoldable pub debug_register : (strdup : Option Text) → DebugState → Option Text → DebugState × ℤ
unfolding first_free store set_level
debug_register strdup d none = (d, minus_one)
debug_register strdup d (some dbgname) = elim (first_free d.debug_level_strs debug_section_max 0) [
  | none ↦ (d, minus_one)
  | some i ↦ (
    record d {
      debug_level_strs = store d.debug_level_strs i strdup;
      debug_levels =
          set_level (set_level (set_level d.debug_levels debug_type_print i []) debug_type_log i [])
            debug_type_syslog i [];
    },
    pos i,
  )
]

-- debug_setmask.
unfoldable pub debug_setmask : DebugState → (s t : ℕ) → Mask → DebugState
unfolding set_level
debug_setmask d s t mask =
    if leb debug_type_max t
    then d
    else record d { debug_levels = set_level d.debug_levels t s mask }

-- The test of the look-ups: the same length, and the same bytes.
unfoldable pub same_name : Text → Text → Bool
unfolding strncmp_equal
same_name x dbg = (length x == length dbg) && strncmp_equal x dbg (length dbg)

-- The look-up of debug_setmask_str and debug_setmask_str2: it ends at the first section without a name, or
-- at the first with this name, or behind the last.
unfoldable pub look_up : (ℕ → Option Text) → Text → (n i : ℕ) → ℕ
unfolding same_name
look_up strs dbg zero i = i
look_up strs dbg (suc n) i =
    let rest = look_up strs dbg n (suc i) in
    elim (strs i) [ none ↦ i | some x ↦ if same_name x dbg then i else rest ]

-- debug_setmask_str.
unfoldable pub debug_setmask_str : DebugState → Text → (t : ℕ) → Mask → DebugState
unfolding look_up debug_setmask
debug_setmask_str d dbg t mask =
    let i = look_up d.debug_level_strs dbg debug_section_max 0 in
    if leb debug_section_max i then d else debug_setmask d i t mask

-- The type look-up of debug_setmask_str2: "syslog" by its first 6 bytes, "log" with its NUL, "print" by
-- its first 4.
unfoldable pub type_of : Text → Option ℕ
unfolding strncmp_equal
type_of dtype =
    if strncmp_equal (115 ∷ 121 ∷ 115 ∷ 108 ∷ 111 ∷ 103 ∷ []) dtype 6
    then some debug_type_syslog
    else if strncmp_equal (108 ∷ 111 ∷ 103 ∷ []) dtype 4
    then some debug_type_log
    else if strncmp_equal (112 ∷ 114 ∷ 105 ∷ 110 ∷ 116 ∷ []) dtype 4
    then some debug_type_print
    else none

-- debug_setmask_str2 behind the look-up of the section.
unfoldable pub set_typed : DebugState → (s : ℕ) → Option ℕ → Mask → DebugState × ℤ
unfolding debug_setmask
set_typed d s none mask = (d, minus_one)
set_typed d s (some t) mask = (debug_setmask d s t mask, pos 0)

-- debug_setmask_str2.
unfoldable pub debug_setmask_str2 : DebugState → Text → Text → Mask → DebugState × ℤ
unfolding look_up set_typed type_of
debug_setmask_str2 d dbg dtype mask =
    let i = look_up d.debug_level_strs dbg debug_section_max 0 in
    if leb debug_section_max i then (d, minus_one) else elim (d.debug_level_strs i) [
      | none ↦ (d, minus_one)
      | some x ↦ set_typed d i (type_of dtype) mask
    ]

-- debug_set_filename.
unfoldable pub debug_set_filename : (strdup : Option Text) → DebugState → DebugState
debug_set_filename strdup d = record d { debug_filename = strdup }

-- debug_file_open_locked and debug_file_open.
unfoldable pub debug_file_open : (fopen : Bool) → DebugState → DebugState
debug_file_open fopen d = elim d.debug_filename [
  | none ↦ record d { debug_file = false }
  | some x ↦ record d { debug_file = fopen }
]

-- debug_file_close_locked and debug_file_close.
unfoldable pub debug_file_close : DebugState → DebugState
debug_file_close d = record d { debug_file = false }

-- debug_file_reopen.
unfoldable pub debug_file_reopen : (fopen : Bool) → DebugState → DebugState
unfolding debug_file_open debug_file_close
debug_file_reopen fopen d = debug_file_open fopen (debug_file_close d)

-- Where a message goes.
pub data Sink : Type 0 where
  to_stderr to_file to_syslog : Sink

-- do_debug: the places that the message is written to, in their order.
unfoldable pub do_debug : DebugState → (s : ℕ) → Mask → List Sink
unfolding meets
do_debug d s mask =
    (if meets (d.debug_levels debug_type_print s) mask then to_stderr ∷ [] else [])
    ++ (if d.debug_file && meets (d.debug_levels debug_type_log s) mask then to_file ∷ [] else [])
    ++ (if d.debug_syslog_enable && meets (d.debug_levels debug_type_syslog s) mask
        then to_syslog ∷ []
        else [])

-- The macro DEBUG.
unfoldable pub debug : DebugState → (s : ℕ) → Mask → List Sink
unfolding do_debug
debug d s mask =
    if meets (d.debug_levels debug_type_print s) mask
      || meets (d.debug_levels debug_type_log s) mask
      || meets (d.debug_levels debug_type_syslog s) mask
    then do_debug d s mask
    else []
