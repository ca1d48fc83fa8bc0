-- ===== src/Base/Store.antt =====
-- Memory as a function from addresses, and a write to one address.
use Prim.Native.Nat.{ℕ}
use mathlib.Core.Path.{◌≡◌}
use mathlib.Core.Bool.{false}
use native.Mathlib.Omega.{arith}
use libiapp.Base.Tests.{◌==◌, if◌then◌else◌}

unfoldable pub store {ℓ} : {A : Type ℓ} → (ℕ → A) → ℕ → A → ℕ → A
store m i v j = if i == j then v else m j

pub store_same {ℓ} : {A : Type ℓ} (m : ℕ → A) (i : ℕ) (v : A) → store m i v i ≡ v
unfolding store
store_same m i v = ground arith

pub store_other {ℓ} :
    {A : Type ℓ} (m : ℕ → A) (i j : ℕ) (v : A) → (i == j) ≡ false → store m i v j ≡ m j
unfolding store
store_other m i j v e = ground (arith, e)
