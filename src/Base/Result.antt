-- ===== src/Base/Result.antt =====
-- Rust's `Result`, and its chaining with `?`.

pub data Result {ℓ κ} (A : Type ℓ) (E : Type κ) : Type (ℓ ⊔ κ) where
  ok : A → Result A E
  err : E → Result A E

infixl 5 ◌>>=◌
abbrev pub ◌>>=◌ {ℓ κ υ} :
    {E : Type υ} {A : Type ℓ} {B : Type κ} → Result A E → (A → Result B E) → Result B E
err e >>= next = err e
ok a >>= next = next a
