-- ===== src/Debug/Tests.antt =====
-- The theorems on lib/libidebug/debug.c at a concrete state.
use libiapp.Base.{
  ◌≡◌, refl, Bool, true, false, none, some, [], ◌∷◌, pos, minus_one, arith, if◌then◌else◌, ◌==◌,
  store,
}
use mathlib.Core.Path.{subst}
use libiapp.Debug.State.{Text, Mask, DebugState, strncmp_equal}
use libiapp.Debug.Log.{
  first_free, debug_register, debug_setmask_str, debug_setmask_str2, type_of, same_name,
}
use libiapp.Debug.Sections.{
  some_value, IsNew, debug_setmask_str2-debug_register, debug_setmask_str-unknown,
}

-- "net" is registered, "io" is not.
abbrev net : Text
net = 110 ∷ 101 ∷ 116 ∷ []

abbrev io : Text
io = 105 ∷ 111 ∷ []

abbrev log_word : Text
log_word = 108 ∷ 111 ∷ 103 ∷ []

abbrev bits : Mask
bits = true ∷ false ∷ true ∷ []

abbrev one_section : DebugState
one_section = record {
  debug_level_strs = store (λ i. none) 0 (some net);
  debug_levels = λ t s. [];
  initialised = true;
  debug_file = false;
  debug_filename = none;
  debug_syslog_enable = false;
}

net_only : (b : Bool) (x : Text) → (if b then some net else none) ≡ some x → same_name x io ≡ false
unfolding same_name strncmp_equal
net_only true x e = subst (λ y. same_name y io ≡ false) (some_value e) refl
net_only false x e = cc

io-IsNew : IsNew one_section.debug_level_strs io
unfolding store
io-IsNew j x e = net_only (0 == j) x e

debug_setmask_str2-debug_register_example :
    (u : DebugState) × (debug_setmask_str2
        (debug_register (some io) one_section (some io)).0
        io
        log_word
        bits
      ≡ (u, pos 0))
    × (u.debug_levels 1 1 ≡ bits)
    × (u.debug_levels 1 0 ≡ [])
unfolding first_free store type_of strncmp_equal
debug_setmask_str2-debug_register_example =
    debug_setmask_str2-debug_register one_section io io-IsNew 1 refl log_word 1 bits 0 1
      (omega arith) refl refl

debug_setmask_str-unknown_example :
    ((debug_setmask_str one_section io 1 bits).debug_levels 1 1 ≡ bits)
    × (debug_setmask_str2 one_section io log_word bits ≡ (one_section, minus_one))
unfolding first_free store
debug_setmask_str-unknown_example =
    debug_setmask_str-unknown one_section io io-IsNew 1 refl log_word 1 bits (omega arith)
