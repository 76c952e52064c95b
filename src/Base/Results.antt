-- ===== src/Base/Results.antt =====
-- The result of a fallible function: Go's value and error, where the value is only used without one.

pub data Result {ℓ κ} (E : Type ℓ) (A : Type κ) : Type (ℓ ⊔ κ) where
  ok : A → Result E A
  err : E → Result E A
