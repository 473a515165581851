-- ===== src/Prelude/Attempt.antt =====
-- Results of code that raises: the exception, or what the code returns.
use mathlib.Core.Path.{◌≡◌, refl, ap}
use native.Mathlib.Omega.{arith}
use mathlib.Core.Bool.{Bool, true, false}

pub data Attempt {ℓ} (E : Type 0) (T : Type ℓ) : Type ℓ where
  raised : E → Attempt E T
  returned : T → Attempt E T

-- What follows runs where nothing was raised.
infixl 6 ◌>>=◌
abbrev pub ◌>>=◌ {ℓ κ} :
    {E : Type 0} {T : Type ℓ} {U : Type κ} (first : Attempt E T) (next : T → Attempt E U)
    → Attempt E U
raised problem >>= next = raised problem
returned value >>= next = next value

infixl 6 ◌>>◌
abbrev pub ◌>>◌ {ℓ} :
    {E : Type 0} {U : Type ℓ} (check : Attempt {0} E Unit) (next : Attempt E U) → Attempt E U
check >> next = check >>= λ _. next

-- `if b: raise e`.
abbrev pub raise_if : {E : Type 0} → Bool → E → Attempt {0} E Unit
raise_if true e = raised e
raise_if false e = returned tt

abbrev pub succeeded {ℓ} : {E : Type 0} {A : Type ℓ} → Attempt E A → Bool
succeeded (raised problem) = false
succeeded (returned value) = true

pub bind-returned {ℓ κ} :
    {E : Type 0} {T : Type ℓ} {U : Type κ} (first : Attempt E T) (next : T → Attempt E U) (u : U)
    → (first >>= next ≡ returned u)
    → (t : T) × (first ≡ returned t) × (next t ≡ returned u)
bind-returned (raised problem) next u h = ground arith
bind-returned (returned t) next u h = (t, refl, h)

pub check-returned {ℓ} :
    {E : Type 0} {U : Type ℓ} (b : Bool) (problem : E) (next : Attempt E U) (u : U)
    → (raise_if b problem >> next ≡ returned u)
    → (b ≡ false) × (next ≡ returned u)
check-returned true problem next u h = ground arith
check-returned false problem next u h = (refl, h)

value_or {ℓ} : {E : Type 0} {T : Type ℓ} → T → Attempt E T → T
value_or t (raised problem) = t
value_or t (returned u) = u

pub returned_inj {ℓ} :
    {E : Type 0} {T : Type ℓ} (a b : T) → (◌≡◌ {A = Attempt E T} (returned a) (returned b)) → a ≡ b
unfolding value_or
returned_inj a b h = ap (value_or a) h
