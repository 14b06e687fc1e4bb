-- ===== src/Base/Decimal/RoundTrip.antt =====
-- `std::stoi` reads back what a stream prints for an int, and the print is a word of the protocol.
use airs.Base.{
  ℕ, zero, suc, ◌+◌, ◌/◌, ◌%◌, ◌<◌, ◌≡◌, refl, ◌∙◌, true, false, [], ◌∷◌, arith, ltb, inl, inr,
  Bool-cases,
}
use airs.Base.Int.{ℤ, pos, negsuc}
use airs.Base.Text.{
  Text, is_space, is_digit, is_empty, lacks, starts, ends, is_separator, is_closing, is_nul, IsWord,
}
use airs.Base.Decimal.{
  ok, digits_go, digits, decimal, skip_spaces, read_digits, int_top, unsigned_part, signed_part,
  stoi, IsInt, read_digits-digits_go, starts-digits_go,
}

unsigned_part-digits : (n : ℕ) → unsigned_part (digits n) ≡ ok n
unfolding unsigned_part digits read_digits
unsigned_part-digits n =
    rw (
      starts-digits_go (suc n) n [] (omega arith),
      read_digits-digits_go (suc n) n [] (omega arith),
    )

-- A text that begins with a digit has no spaces to skip and no sign.
stoi_unsigned :
    (s : Text) (n : ℕ)
    → starts is_digit s ≡ true
    → unsigned_part s ≡ ok n
    → n < int_top
    → stoi s ≡ ok (pos n)
unfolding stoi skip_spaces signed_part
stoi_unsigned [] n d e h = cc
stoi_unsigned (c ∷ s) n d e h = ground arith

stoi_negative :
    (s : Text) (n : ℕ)
    → unsigned_part s ≡ ok (suc n)
    → n < int_top
    → stoi (b'-' ∷ s) ≡ ok (negsuc n)
unfolding stoi skip_spaces signed_part
stoi_negative s n e h = ground arith

-- Every 32-bit int is read back from its decimal print.
pub stoi-decimal : (z : ℤ) → IsInt z → stoi (decimal z) ≡ ok z
unfolding decimal digits
stoi-decimal (pos n) h =
    stoi_unsigned _ n (starts-digits_go (suc n) n [] (omega arith)) (unsigned_part-digits n) h
stoi-decimal (negsuc n) h = stoi_negative _ n (unsigned_part-digits (suc n)) h

lacks-digits_go :
    (fuel n : ℕ) (acc : Text)
    → lacks is_separator acc ≡ true
    → lacks is_separator (digits_go fuel n acc) ≡ true
unfolding digits_go
lacks-digits_go zero n acc h = h
lacks-digits_go (suc fuel) n acc h =
    ground (arith, lacks-digits_go fuel (n / 10) ((48 + n % 10) ∷ acc))

lacks_nul-digits_go :
    (fuel n : ℕ) (acc : Text) → lacks is_nul acc ≡ true → lacks is_nul (digits_go fuel n acc) ≡ true
unfolding digits_go
lacks_nul-digits_go zero n acc h = h
lacks_nul-digits_go (suc fuel) n acc h =
    ground (arith, lacks_nul-digits_go fuel (n / 10) ((48 + n % 10) ∷ acc))

ends-cons-digit :
    (d : ℕ) (acc : Text)
    → d < 10
    → ends is_closing acc ≡ false
    → ends is_closing ((48 + d) ∷ acc) ≡ false
ends-cons-digit d [] h e = ground arith
ends-cons-digit d (c ∷ acc) h e = e

ends-digits_go :
    (fuel n : ℕ) (acc : Text)
    → ends is_closing acc ≡ false
    → ends is_closing (digits_go fuel n acc) ≡ false
unfolding digits_go
ends-digits_go zero n acc h = h
ends-digits_go (suc fuel) n acc h = elim (Bool-cases (ltb n 10)) [
  | inl small ↦ rw small (ends-cons-digit n acc (ground arith) h)
  | inr large ↦
      rw large (ends-digits_go fuel (n / 10) _ (ends-cons-digit (n % 10) acc (omega arith) h))
]

starts_digit_lem :
    (s : Text) → starts is_digit s ≡ true → (starts is_space s ≡ false) × (is_empty s ≡ false)
starts_digit_lem [] h = cc
starts_digit_lem (c ∷ s) h = ground arith

digits-IsWord : (n : ℕ) → IsWord (digits n)
unfolding digits
digits-IsWord n =
    let first = starts_digit_lem _ (starts-digits_go (suc n) n [] (omega arith)) in
    record {
      filled = first.1;
      one_piece = lacks-digits_go (suc n) n [] refl;
      no_nul = lacks_nul-digits_go (suc n) n [] refl;
      no_space_first = first.0;
      no_closing_last = ends-digits_go (suc n) n [] refl;
    }

ends-cons : (c : ℕ) (s : Text) → is_empty s ≡ false → ends is_closing (c ∷ s) ≡ ends is_closing s
ends-cons c [] h = cc
ends-cons c (d ∷ s) h = refl

pub decimal-IsWord : (z : ℤ) → IsWord (decimal z)
unfolding decimal
decimal-IsWord (pos n) = digits-IsWord n
decimal-IsWord (negsuc n) =
    let w = digits-IsWord (suc n) in
    record {
      filled = refl;
      one_piece = w.one_piece;
      no_nul = w.no_nul;
      no_space_first = refl;
      no_closing_last = ends-cons b'-' _ w.filled ∙ w.no_closing_last;
    }
