-- ===== src/Tracks/Ensured.antt =====
-- What a piece of code ensures of its result, if it has one.
use airs.Base.{Bool, true, false, Option, none, some, if◌then◌else◌}
use airs.Base.Faults.{◌>>=◌, Returns}

-- The predicate holds of a result, if there is one.
abbrev pub Ensures {ℓ} : {A : Type ℓ} → (A → Type 0) → Option A → Type 0
Ensures P none = Unit
Ensures P (some a) = P a

pub >>=-Ensures {ℓ κ} :
    {A : Type ℓ} {B : Type κ} (P : A → Type 0) (Q : B → Type 0) (x : Option A) (f : A → Option B)
    → Ensures P x
    → ((a : A) → P a → Ensures Q (f a))
    → Ensures Q (x >>= f)
>>=-Ensures P Q none f r h = tt
>>=-Ensures P Q (some a) f r h = h a r

pub if-Ensures {ℓ} :
    {A : Type ℓ} (P : A → Type 0) (hit : Bool) (x y : Option A)
    → Ensures P x
    → Ensures P y
    → Ensures P (if hit then x else y)
if-Ensures P true x y r s = r
if-Ensures P false x y r s = s

pub Ensures-map {ℓ} :
    {A : Type ℓ} (P Q : A → Type 0) (x : Option A)
    → ((a : A) → P a → Q a)
    → Ensures P x
    → Ensures Q x
Ensures-map P Q none h r = tt
Ensures-map P Q (some a) h r = h a r

pub both {ℓ} :
    {A : Type ℓ} (P : A → Type 0) (x : Option A)
    → Returns (λ a. Unit {0}) x
    → Ensures P x
    → Returns P x
both P none r e = r
both P (some a) r e = e

pub any {ℓ} : {A : Type ℓ} (x : Option A) → Ensures (λ a. Unit {0}) x
any none = tt
any (some a) = tt
