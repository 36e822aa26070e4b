-- ===== src/Base/Outcomes.antt =====
-- What a Rust call can do: return a value, return an error, or panic.

pub data Outcome {ℓ} (E : Type 0) (A : Type ℓ) : Type ℓ where
  ok : A → Outcome E A
  err : E → Outcome E A
  panicked : Outcome E A

-- `?` on a result; a panic ends the call.
abbrev pub and_then {ℓ κ} :
    {E : Type 0} {A : Type ℓ} {B : Type κ} → Outcome E A → (A → Outcome E B) → Outcome E B
and_then (ok a) f = f a
and_then (err e) f = err e
and_then panicked f = panicked
