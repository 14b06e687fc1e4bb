-- ===== src/Base/Decimal.antt =====
-- Decimal numbers of the C++ library: what a stream prints for an int, and `std::stoi`.
pub mod RoundTrip
use airs.Base.Tests.{ltb, ◌==◌, if◌then◌else◌}
use airs.Base.Int.{ℤ, pos, negsuc}
use airs.Base.Text.{Text, is_space, is_digit, starts}
use Prim.Native.Nat.{ℕ, zero, suc, ◌+◌, ◌-◌, ◌*◌, ◌/◌, ◌%◌, ◌<◌}
use mathlib.Core.Path.{◌≡◌, refl}
use mathlib.Core.Bool.{true}
use mathlib.Core.List.{[], ◌∷◌}
use native.Mathlib.Omega.{arith}

-- The exceptions of `std::stoi` and `std::stod`.
pub data Exception : Type 0 where
  invalid_argument out_of_range : Exception

pub data Result {ℓ} (X : Type ℓ) : Type ℓ where
  throw : Exception → Result X
  ok : X → Result X

infixl 5 ◌>>=◌
abbrev pub ◌>>=◌ {ℓ κ} : {X : Type ℓ} {Y : Type κ} → Result X → (X → Result Y) → Result Y
throw e >>= next = throw e
ok x >>= next = next x

pub >>=-eq-ok :
    {X Y : Type 0} (next : X → Result Y) (first : Result X) {y : Y}
    → (first >>= next) ≡ ok y
    → (x : X) × (next x ≡ ok y) × (first ≡ ok x)
>>=-eq-ok next (throw e) h = cc
>>=-eq-ok next (ok x) h = (x, h, refl)

-- The digits of `n` before `acc`. One digit falls with each round, so `n + 1` rounds are enough.
digits_go : ℕ → ℕ → Text → Text
digits_go zero n acc = acc
digits_go (suc fuel) n acc =
    let rest = digits_go fuel (n / 10) ((48 + n % 10) ∷ acc) in
    if ltb n 10 then (48 + n) ∷ acc else rest

unfoldable pub digits : ℕ → Text
unfolding digits_go
digits n = digits_go (suc n) n []

unfoldable pub decimal : ℤ → Text
unfolding digits
decimal (pos n) = digits n
decimal (negsuc n) = b'-' ∷ digits (suc n)

skip_spaces : Text → Text
skip_spaces [] = []
skip_spaces (c ∷ s) = if is_space c then skip_spaces s else c ∷ s

read_digits : ℕ → Text → ℕ
read_digits acc [] = acc
read_digits acc (c ∷ s) =
    let more = read_digits (acc * 10 + (c - 48)) s in if is_digit c then more else acc

abbrev pub int_top : ℕ
int_top = 2147483648

-- -n as an int.
abbrev negated : ℕ → Result ℤ
negated zero = ok (pos 0)
negated (suc n) = if ltb n int_top then ok (negsuc n) else throw out_of_range

unsigned_part : Text → Result ℕ
unfolding read_digits
unsigned_part s = if starts is_digit s then ok (read_digits 0 s) else throw invalid_argument

abbrev bounded : ℕ → Result ℤ
bounded n = if ltb n int_top then ok (pos n) else throw out_of_range

signed_part : Text → Result ℤ
unfolding unsigned_part
signed_part [] = throw invalid_argument
signed_part (c ∷ s) =
    if c == b'-'
    then (unsigned_part s >>= negated)
    else if c == b'+'
    then (unsigned_part s >>= bounded)
    else (unsigned_part (c ∷ s) >>= bounded)

-- Leading spaces, a sign, digits up to the first other character, and the range of a 32-bit int.
unfoldable pub stoi : Text → Result ℤ
unfolding skip_spaces signed_part
stoi s = signed_part (skip_spaces s)

-- The range of a 32-bit int.
abbrev pub IsInt : ℤ → Type 0
IsInt (pos n) = n < int_top
IsInt (negsuc n) = n < int_top

read_digits-digits_go :
    (fuel n : ℕ) (acc : Text) → n < fuel → read_digits 0 (digits_go fuel n acc) ≡ read_digits n acc
unfolding digits_go read_digits
read_digits-digits_go zero n acc h = elim h [ ]
read_digits-digits_go (suc fuel) n acc h =
    ground (arith, read_digits-digits_go fuel (n / 10) ((48 + n % 10) ∷ acc))

starts-digits_go :
    (fuel n : ℕ) (acc : Text) → n < fuel → starts is_digit (digits_go fuel n acc) ≡ true
unfolding digits_go
starts-digits_go zero n acc h = elim h [ ]
starts-digits_go (suc fuel) n acc h =
    ground (arith, starts-digits_go fuel (n / 10) ((48 + n % 10) ∷ acc))
