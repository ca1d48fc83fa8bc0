-- ===== src/Base/Int.antt =====
-- C `int` results and descriptors: `negsuc n` is -(n + 1).
use Prim.Native.Nat.{ℕ}

pub data ℤ : Type 0 where
  pos : ℕ → ℤ
  negsuc : ℕ → ℤ

-- -1, the value of a failed call and of "no descriptor".
abbrev pub minus_one : ℤ
minus_one = negsuc 0
