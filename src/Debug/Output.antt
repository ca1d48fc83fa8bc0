-- ===== src/Debug/Output.antt =====
-- Where the messages of lib/libidebug/debug.c go.
use libiapp.Base.{ℕ, ◌≡◌, arith}
use libiapp.Debug.State.{Mask, DebugState}
use libiapp.Debug.Log.{do_debug, debug}

-- The macro DEBUG, which looks at the masks before it calls do_debug, writes to the same places as do_debug.
debug-do_debug : (d : DebugState) (s : ℕ) (mask : Mask) → debug d s mask ≡ do_debug d s mask
unfolding debug do_debug
debug-do_debug d s mask = ground arith
