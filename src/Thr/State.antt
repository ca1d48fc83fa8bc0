-- ===== src/Thr/State.antt =====
-- The structs of lib/libiapp/thr.h, and the memory that the calls of thr.c take: blocks and event loops, with an
-- address each, which is given out once.
use libiapp.Base.{ℕ, suc, Bool, List, ◌∷◌, remove}
use libiapp.Fde.Event.{FdeHead}

-- `h` is the address of the thread's event loop.
pub record Thr : Type 0 where
  pub self : ℕ
  pub h : ℕ
  pub f_wakeup : ℕ
  pub active : Bool

pub record ThrGroup : Type 0 where
  pub self : ℕ
  pub array : ℕ
  pub n_threads : ℕ
  pub threads : List Thr

-- `heads` lists the event loops that were made and not given back, and `loops` is what they hold.
pub record ThrHeap : Type 0 where
  pub live : List ℕ
  pub next_block : ℕ
  pub heads : List ℕ
  pub next_head : ℕ
  pub loops : ℕ → FdeHead

abbrev pub take : ThrHeap → ThrHeap
take m = record m { live = m.next_block ∷ m.live; next_block = suc m.next_block }

abbrev pub give : ThrHeap → ℕ → ThrHeap
give m b = record m { live = remove b m.live }

-- What is answered while a thread is made.
pub record ThrCalls : Type 0 where
  pub calloc : Bool
  pub calloc_head : Bool
  pub kqueue : Bool
  pub calloc_event : Bool
