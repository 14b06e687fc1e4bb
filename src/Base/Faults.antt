-- ===== src/Base/Faults.antt =====
-- Code that reads where nothing is: `none`, and what a run without such a read returns.
use mathlib.Core.Path.{◌≡◌, refl}
use mathlib.Core.Option.{Option, none, some}

infixl 5 ◌>>=◌
abbrev pub ◌>>=◌ {ℓ κ} : {A : Type ℓ} {B : Type κ} → Option A → (A → Option B) → Option B
none >>= f = none
some a >>= f = f a

-- The code returns, and the predicate holds of the result.
abbrev pub Returns {ℓ} : {A : Type ℓ} → (A → Type 0) → Option A → Type 0
Returns P none = ⊥
Returns P (some a) = P a

pub >>=-Returns {ℓ κ} :
    {A : Type ℓ} {B : Type κ} (P : A → Type 0) (Q : B → Type 0) (x : Option A) (f : A → Option B)
    → Returns P x
    → ((a : A) → P a → Returns Q (f a))
    → Returns Q (x >>= f)
>>=-Returns P Q none f r h = absurd r
>>=-Returns P Q (some a) f r h = h a r

pub Returns-some {ℓ} :
    {A : Type ℓ} (P : A → Type 0) (x : Option A) → Returns P x → (a : A) × (x ≡ some a) × P a
Returns-some P none r = absurd r
Returns-some P (some a) r = (a, refl, r)

pub Returns-map {ℓ} :
    {A : Type ℓ} (P Q : A → Type 0) (x : Option A)
    → ((a : A) → P a → Q a)
    → Returns P x
    → Returns Q x
Returns-map P Q none h r = absurd r
Returns-map P Q (some a) h r = h a r
