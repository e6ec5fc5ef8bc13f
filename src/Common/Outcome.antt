-- ===== src/Common/Outcome.antt =====
-- How a call can end: with a value, in an uncaught exception or `std::terminate`, in undefined
-- behaviour, or in a wait that never ends.
use mathlib.Core.Path.{◌≡◌, refl}

pub data Outcome {ℓ} (A : Type ℓ) : Type ℓ where
  ok : A → Outcome A
  terminated undefined hangs : Outcome A

infixl 5 ◌>>=◌
abbrev pub ◌>>=◌ {ℓ κ} : {A : Type ℓ} {B : Type κ} → Outcome A → (A → Outcome B) → Outcome B
ok a >>= f = f a
terminated >>= f = terminated
undefined >>= f = undefined
hangs >>= f = hangs

-- Inversion of a bind that succeeded.
pub bind-ok {ℓ κ} :
    {A : Type ℓ} {B : Type κ} (o : Outcome A) (f : A → Outcome B) {b : B}
    → (o >>= f) ≡ ok b
    → (a : A) × (o ≡ ok a) × (f a ≡ ok b)
bind-ok (ok a) f h = (a, refl, h)
bind-ok terminated f h = absurd (cc)
bind-ok undefined f h = absurd (cc)
bind-ok hangs f h = absurd (cc)

pub bind_assoc {ℓ κ μ} :
    {A : Type ℓ} {B : Type κ} {C : Type μ} (o : Outcome A) (f : A → Outcome B) (g : B → Outcome C)
    → (o >>= f >>= g) ≡ (o >>= λ a. f a >>= g)
bind_assoc (ok a) f g = refl
bind_assoc terminated f g = refl
bind_assoc undefined f g = refl
bind_assoc hangs f g = refl
