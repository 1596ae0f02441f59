-- ===== src/Base/Monad.antt =====
-- Code that may panic: `none` is a panic (a failed assertion, a refused `unwrap`, an index out of
-- range).
use mathlib.Core.Path.{◌≡◌, refl}
use mathlib.Core.Bool.{Bool, true, false}
use mathlib.Core.Option.{Option, none, some}

infixl 5 ◌>>=◌ ◌>>◌
abbrev pub ◌>>=◌ {ℓ κ} : {A : Type ℓ} {B : Type κ} → Option A → (A → Option B) → Option B
none >>= f = none
some a >>= f = f a

abbrev pub ◌>>◌ {ℓ} : {B : Type ℓ} → Option (Unit {0}) → Option B → Option B
m >> k = m >>= λ _. k

-- `assert!`
abbrev pub assert : Bool → Option (Unit {0})
assert true = some tt
assert false = none

pub bind-eq-some {ℓ κ} :
    {A : Type ℓ} {B : Type κ} (m : Option A) (f : A → Option B) {b : B}
    → (m >>= f) ≡ some b
    → (a : A) × (m ≡ some a) × (f a ≡ some b)
bind-eq-some none f h = cc
bind-eq-some (some a) f h = (a, refl, h)
