-- ===== src/Conn/Buffer.antt =====
-- What conn_new of lib/libiapp/conn.c writes into the buffer of a connection.
use libiapp.Base.{
  ℕ, zero, suc, ◌+◌, ◌%◌, ◌≤◌, ◌<◌, ◌≡◌, ◌⊎◌, inl, inr, refl, ◌∙◌, arith, ◌==◌, Bool-cases, store,
}
use libiapp.Conn.New.{fill}

-- Behind the bytes from the i-th on.
fill-kept :
    (buf i n : ℕ) (m : ℕ → ℕ) (a : ℕ) → (a < buf + i) ⊎ (buf + i + n ≤ a) → fill buf i n m a ≡ m a
unfolding fill store
fill-kept buf i zero m a w = refl
fill-kept buf i (suc n) m a w =
    fill-kept buf (suc i) n (store m (buf + i) (i % 10 + 48)) a
      (elim w [ inl b ↦ inl (omega arith) | inr c ↦ inr (omega arith) ])
    ∙ ground arith

fill-digit :
    (buf i n : ℕ) (m : ℕ → ℕ) (j : ℕ) → i ≤ j → j < i + n → fill buf i n m (buf + j) ≡ j % 10 + 48
unfolding fill store
fill-digit buf i zero m j l h = absurd (omega arith)
fill-digit buf i (suc n) m j l h = elim (Bool-cases (i == j)) [
  | inl e ↦
      fill-kept buf (suc i) n (store m (buf + i) (i % 10 + 48)) (buf + j) (inl (ground arith))
      ∙ ground arith
  | inr d ↦
      fill-digit buf (suc i) n (store m (buf + i) (i % 10 + 48)) j (ground arith) (ground arith)
]

-- conn_new fills the buffer with the digits in turn: the byte at `buf + j` is the digit of `j % 10`, for
-- every `j` below the size, and a byte at an address outside the buffer is as it was.
pub fill-digits :
    (buf size : ℕ) (m : ℕ → ℕ) (j a : ℕ)
    → j < size
    → (a < buf) ⊎ (buf + size ≤ a)
    → (fill buf 0 size m (buf + j) ≡ j % 10 + 48) × (fill buf 0 size m a ≡ m a)
fill-digits buf size m j a h w = (
  fill-digit buf 0 size m j (omega arith) (omega arith),
  fill-kept buf 0 size m a (elim w [ inl b ↦ inl (omega arith) | inr c ↦ inr (omega arith) ]),
)
