-- ===== src/Base/Results.antt =====
-- Results with errors as values: Go's pairs `(value, error)` of which one counts.
use mathlib.Core.Option.{Option, none, some}

pub data Result {ℓ κ} (E : Type ℓ) (A : Type κ) : Type (ℓ ⊔ κ) where
  ok : A → Result E A
  err : E → Result E A

infixl 5 ◌>>=◌
abbrev pub ◌>>=◌ {ℓ κ μ} :
    {E : Type ℓ} {A : Type κ} {B : Type μ} → Result E A → (A → Result E B) → Result E B
ok a >>= f = f a
err e >>= f = err e

-- `if err != nil { return wrap(err) }`
abbrev pub check {ℓ κ μ} :
    {D : Type ℓ} {E : Type κ} {A : Type μ} → Option D → E → Result E A → Result E A
check none e next = next
check (some d) e next = err e
