-- ===== src/Host/Sample.antt =====
-- A concrete `Host` for tests and witnesses: whole numbers in the range of an int stand for the
-- doubles, and the text operations are written out.
use airs.Base.{
  ℕ, ◌≡◌, refl, Bool, true, false, ◌&&◌, List, [], ◌∷◌, ◌++◌, arith, ltb, if◌then◌else◌,
}
use airs.Base.Int.{ℤ, pos, negsuc, ltb_ℤ, leb_ℤ}
use airs.Base.Text.{Text, is_empty, same_letters, is_space, lacks, starts, ends}
use airs.Base.Decimal.{decimal, int_top, IsInt, stoi}
use airs.Base.Decimal.RoundTrip.{stoi-decimal, decimal-IsWord}
use airs.Host.{Host, HostLaws}

-- The nearest int.
unfoldable pub clamp : ℤ → ℤ
clamp (pos n) = if ltb n int_top then pos n else pos 2147483647
clamp (negsuc n) = if ltb n int_top then negsuc n else negsuc 2147483647

clamp-IsInt : (z : ℤ) → IsInt (clamp z)
unfolding clamp
clamp-IsInt (pos n) = ground arith
clamp-IsInt (negsuc n) = ground arith

unfoldable pub cut_right : (ℕ → Bool) → Text → Text
cut_right p [] = []
cut_right p (c ∷ s) = let r = cut_right p s in if is_empty r && p c then [] else c ∷ r

unfoldable pub cut_left : (ℕ → Bool) → Text → Text
cut_left p [] = []
cut_left p (c ∷ s) = if p c then cut_left p s else c ∷ s

abbrev grow_first : ℕ → List Text → List Text
grow_first c [] = (c ∷ []) ∷ []
grow_first c (t ∷ ts) = (c ∷ t) ∷ ts

unfoldable pub pieces : (ℕ → Bool) → Text → List Text
pieces p [] = [] ∷ []
pieces p (c ∷ s) =
    let rest = pieces p s in
    if p c then (if starts p s then rest else [] ∷ rest) else grow_first c rest

abbrev pub sample : Host
sample = record {
  Double = ℤ;
  of_int = λ z. z;
  lt = ltb_ℤ;
  le = leb_ℤ;
  to_float = λ z. z;
  print_double = λ z. decimal (clamp z);
  print_int = decimal;
  stod = stoi;
  iequals = same_letters;
  trim = λ s. cut_right is_space (cut_left is_space s);
  trim_right_if = cut_right;
  split = pieces;
  format_kv = λ k v. k ++ b'=' ∷ v ++ b',' ∷ [];
}

cut_left_fixed : (p : ℕ → Bool) (s : Text) → starts p s ≡ false → cut_left p s ≡ s
unfolding cut_left
cut_left_fixed p [] h = refl
cut_left_fixed p (c ∷ s) h = ground arith

cut_right_fixed : (p : ℕ → Bool) (s : Text) → ends p s ≡ false → cut_right p s ≡ s
unfolding cut_right
cut_right_fixed p [] h = refl
cut_right_fixed p (c ∷ []) h = ground arith
cut_right_fixed p (c ∷ d ∷ s) h = rw (cut_right_fixed p (d ∷ s) h)

trim_lem :
    (s : Text)
    → starts is_space s ≡ false
    → ends is_space s ≡ false
    → cut_right is_space (cut_left is_space s) ≡ s
trim_lem s h k = rw (cut_left_fixed is_space s h) (cut_right_fixed is_space s k)

cut_right_cut :
    (p : ℕ → Bool) (s : Text) (c : ℕ)
    → p c ≡ true
    → ends p s ≡ false
    → cut_right p (s ++ c ∷ []) ≡ s
unfolding cut_right
cut_right_cut p [] c h k = ground arith
cut_right_cut p (a ∷ []) c h k = ground arith
cut_right_cut p (a ∷ b ∷ s) c h k = rw (cut_right_cut p (b ∷ s) c h k)

pieces_one : (p : ℕ → Bool) (s : Text) → lacks p s ≡ true → pieces p s ≡ s ∷ []
unfolding pieces
pieces_one p [] h = refl
pieces_one p (c ∷ s) h = ground (arith, pieces_one p s)

pieces_at :
    (p : ℕ → Bool) (a : Text) (c : ℕ) (b : Text)
    → lacks p a ≡ true
    → p c ≡ true
    → starts p b ≡ false
    → pieces p (a ++ c ∷ b) ≡ a ∷ pieces p b
unfolding pieces
pieces_at p [] c b h k l = ground arith
pieces_at p (d ∷ a) c b h k l = ground (arith, pieces_at p a c b)

pub sample-HostLaws : HostLaws sample
sample-HostLaws = record {
  rounded = clamp;
  is_regular = λ d. true;
  stod-print_double = λ d r. stoi-decimal (clamp d) (clamp-IsInt d);
  print_double-IsWord = λ d. decimal-IsWord (clamp d);
  print_int-decimal = λ z. refl;
  iequals_letters = λ s t. refl;
  trim_fixed = trim_lem;
  trim_right_if_cut = cut_right_cut;
  split_one = pieces_one;
  split_at = pieces_at;
  format_kv_lem = λ k v. refl;
}
