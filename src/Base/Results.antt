-- ===== src/Base/Results.antt =====
-- The result of code that may raise: a value, or the exception raised.

pub data Outcome {ℓ} (E A : Type ℓ) : Type ℓ where
  ok : A → Outcome E A
  err : E → Outcome E A
