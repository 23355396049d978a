-- ===== src/Base/Results.antt =====
-- Calls that return a value with a property.
use mathlib.Core.Path.{◌≡◌, refl, ap, ◌∙◌, subst}
use mathlib.Core.Bool.{Bool, true, false}
use webircgateway.Base.Calls.{Outcome, ok, panic, diverge, ◌>>=◌}
use webircgateway.Base.Tests.{if◌then◌else◌}

module _ {ℓ κ} {A : Type ℓ} where
  abbrev pub Returns : Outcome A → (A → Type κ) → Type (ℓ ⊔ κ)
  Returns o P = (d : A) × (o ≡ ok d) × P d

  pub Returns-if :
      {P : A → Type κ} (b : Bool) (o o' : Outcome A)
      → (b ≡ true → Returns o P)
      → (b ≡ false → Returns o' P)
      → Returns (if b then o else o') P
  Returns-if true o o' taken left = taken refl
  Returns-if false o o' taken left = left refl

pub Returns-bind :
    {A B : Type 0} {P : A → Type 0} {Q : B → Type 0} (o : Outcome A) (k : A → Outcome B)
    → Returns o P
    → ((d : A) → P d → Returns (k d) Q)
    → Returns (o >>= k) Q
Returns-bind o k (d, e, h) next = let (d', e', h') = next d h in (d', ap (λ o. o >>= k) e ∙ e', h')

-- What is known of the value returned holds of every value that the call is known to return.
pub Returns-value :
    {A : Type 0} (P : A → Type 0) (o : Outcome A) (a : A) → Returns o P → o ≡ ok a → P a
Returns-value P o a (d, e, h) q = let same : d ≡ a = cc in subst P same h

-- A property of what a call returns, where it returns.
abbrev pub Ensures {ℓ κ} : {A : Type ℓ} → Outcome A → (A → Type κ) → Type κ
Ensures (ok a) P = P a
Ensures panic P = Unit
Ensures diverge P = Unit

pub Ensures-bind :
    {A B : Type 0} (P : A → Type 0) (Q : B → Type 0) (o : Outcome A) (k : A → Outcome B)
    → Ensures o P
    → ((a : A) → P a → Ensures (k a) Q)
    → Ensures (o >>= k) Q
Ensures-bind P Q (ok a) k h next = next a h
Ensures-bind P Q panic k h next = tt
Ensures-bind P Q diverge k h next = tt

pub Ensures-if :
    {A : Type 0} (P : A → Type 0) (b : Bool) (o o' : Outcome A)
    → Ensures o P
    → Ensures o' P
    → Ensures (if b then o else o') P
Ensures-if P true o o' h h' = h
Ensures-if P false o o' h h' = h'

pub Ensures-value :
    {A : Type 0} (P : A → Type 0) (o : Outcome A) (a : A) → Ensures o P → o ≡ ok a → P a
Ensures-value P o a h e = subst (λ o. Ensures o P) e h
