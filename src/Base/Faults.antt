-- ===== src/Base/Faults.antt =====
-- Code that can reach undefined behaviour returns an option: `none` is the fault.
use mathlib.Core.Option.{Option, none, some}
use mathlib.Core.Path.{◌≡◌, ◌∙◌}

infixl 5 ◌>>=◌
abbrev pub ◌>>=◌ {ℓ κ} : {A : Type ℓ} {B : Type κ} → Option A → (A → Option B) → Option B
none >>= f = none
some a >>= f = f a

-- The code returns without a fault, and the result has the property.
abbrev pub Returns {ℓ κ} : {A : Type ℓ} → Option A → (A → Type κ) → Type (ℓ ⊔ κ)
Returns {A = A} o P = (a : A) × (o ≡ some a) × P a

module _ {ℓ κ} {B : Type ℓ} {P : B → Type κ} where
  -- After a step that returns, what the rest returns.
  pub Returns-bind {ι} :
      {A : Type ι} (o : Option A) (a : A) (f : A → Option B)
      → o ≡ some a
      → Returns (f a) P
      → Returns (o >>= f) P
  Returns-bind o a f e (b, run, p) = (b, rw e run, p)

  pub Returns-eq : (m m' : Option B) → m ≡ m' → Returns m' P → Returns m P
  Returns-eq m m' e (b, run, p) = (b, e ∙ run, p)

  pub Returns-map :
      {Q : B → Type κ} (m : Option B) → ((b : B) → P b → Q b) → Returns m P → Returns m Q
  Returns-map m f (b, run, p) = (b, run, f b p)
