-- ===== src/Doubles/Whole.antt =====
-- Whole numbers in place of doubles, for tests: a degree is a whole turn's 360th part, and sines and
-- roots keep their argument.
use airs.Base.{ℕ, ◌+◌, ◌*◌, ◌/◌, ◌-◌, [], ◌∷◌, if◌then◌else◌}
use airs.Base.Int.{ℤ, pos, negsuc, ◌+ℤ◌, ◌-ℤ◌, ltb_ℤ, leb_ℤ, eqb_ℤ, pos_part, neg_part, sub_ℕ}
use airs.Base.Text.{Text, codes, text_eq, is_digit}
use airs.TimeSpace.Formulas.{Real}
use airs.Doubles.{Doubles}
use Prim.Native.String.{String}

-- The whole part of a literal.
unfoldable pub whole_part : Text → ℕ → ℕ
whole_part [] n = n
whole_part (c ∷ cs) n =
    let rest = whole_part cs (n * 10 + (c - 48)) in if is_digit c then rest else n

unfoldable pub literal : Text → ℤ
unfolding whole_part
literal [] = pos 0
literal (c ∷ cs) =
    if eqb_ℤ (pos c) (pos 45) then pos 0 -ℤ pos (whole_part cs 0) else pos (whole_part (c ∷ cs) 0)

unfoldable pub times : ℤ → ℤ → ℤ
times a b =
    sub_ℕ (pos_part a * pos_part b + neg_part a * neg_part b)
      (pos_part a * neg_part b + neg_part a * pos_part b)

-- Without the rest.
unfoldable pub divide : ℤ → ℤ → ℤ
divide (pos a) (pos b) = pos (a / b)
divide (negsuc a) (pos b) = negsuc (a / b)
divide (pos a) (negsuc b) = pos 0 -ℤ pos (a / (1 + b))
divide (negsuc a) (negsuc b) = pos ((1 + a) / (1 + b))

unfoldable pub no_turns : String → ℤ
unfolding literal
no_turns s =
    if text_eq (codes s) (codes "5.729577951308232087679815E1")
    then pos 1
    else if text_eq (codes s) (codes "6.283185307179586476925287")
    then pos 360
    else literal (codes s)

abbrev pub whole : Real
whole = record {
  Double = ℤ;
  lit = no_turns;
  of_int = λ z. z;
  add = λ a b. a +ℤ b;
  sub = λ a b. a -ℤ b;
  mul = λ a b. times a b;
  div = divide;
  floor = λ a. a;
  sin = λ a. a;
  cos = λ a. a;
  asin = λ a. a;
  atan2 = λ a b. a;
  less = λ a b. ltb_ℤ a b;
}

abbrev pub numbers : Doubles
numbers = record {
  real = whole;
  fabs = λ a. if ltb_ℤ a (pos 0) then pos 0 -ℤ a else a;
  sqrt = λ a. a;
  acos = λ a. a;
  le = λ a b. leb_ℤ a b;
  eq = λ a b. eqb_ℤ a b;
  trunc = λ a. a;
}
