-- ===== src/Debug/State.antt =====
-- The state of lib/libidebug/debug.c. A string is the list of its bytes without the NUL; a mask is the list of
-- its bits, lowest first. The mutex is taken and given back within each function, and is left out.
use libiapp.Base.{ℕ, zero, suc, Bool, true, false, ◌&&◌, ◌||◌, Option, List, [], ◌∷◌, ◌==◌}

abbrev pub Text : Type 0
Text = List ℕ

abbrev pub Mask : Type 0
Mask = List Bool

abbrev pub debug_section_max : ℕ
debug_section_max = 256

abbrev pub debug_type_max : ℕ
debug_type_max = 3

abbrev pub debug_type_print : ℕ
debug_type_print = 0

abbrev pub debug_type_log : ℕ
debug_type_log = 1

abbrev pub debug_type_syslog : ℕ
debug_type_syslog = 2

-- `debug_file` says whether a file is open.
pub record DebugState : Type 0 where
  pub debug_level_strs : ℕ → Option Text
  pub debug_levels : ℕ → ℕ → Mask
  pub initialised : Bool
  pub debug_file : Bool
  pub debug_filename : Option Text
  pub debug_syslog_enable : Bool

-- `a & b` is not 0.
unfoldable pub meets : Mask → Mask → Bool
meets [] b = false
meets (x ∷ a) [] = false
meets (x ∷ a) (y ∷ b) = (x && y) || meets a b

-- strncmp(3) of two strings is 0. A string that ends is followed by its NUL.
unfoldable pub strncmp_equal : (a b : Text) (n : ℕ) → Bool
strncmp_equal a b zero = true
strncmp_equal [] [] (suc n) = true
strncmp_equal [] (y ∷ b) (suc n) = false
strncmp_equal (x ∷ a) [] (suc n) = false
strncmp_equal (x ∷ a) (y ∷ b) (suc n) = (x == y) && strncmp_equal a b n
