-- ===== src/Base/Text.antt =====
-- Texts as lists of character codes, with the character classes of <cctype> in the "C" locale.
use airs.Base.Tests.{leb, ◌==◌, if◌then◌else◌}
use Prim.Native.Nat.{ℕ, ◌-◌}
use Prim.Native.Char.{code}
use Prim.Native.String.{String}
use mathlib.Core.Bool.{Bool, true, false, not, ◌&&◌, ◌||◌}
use mathlib.Core.List.{List, [], ◌∷◌, ◌++◌}
use mathlib.Core.Path.{◌≡◌, refl}
use native.Mathlib.Omega.{arith}

abbrev pub Text : Type 0
Text = List ℕ

-- The codes of a literal.
abbrev pub codes : String → Text
codes String.[] = []
codes (String.◌∷◌ c s) = code c ∷ codes s

abbrev pub is_empty : Text → Bool
is_empty [] = true
is_empty (c ∷ s) = false

abbrev pub text_eq : Text → Text → Bool
text_eq [] [] = true
text_eq (a ∷ s) (b ∷ t) = a == b && text_eq s t
text_eq _ _ = false

-- std::isspace: space, and the controls from \t to \r.
abbrev pub is_space : ℕ → Bool
is_space c = c == 32 || (leb 9 c && leb c 13)

-- std::ispunct: printable, and neither a space, a letter nor a digit.
abbrev pub is_punct : ℕ → Bool
is_punct c =
    (leb 33 c && leb c 47)
    || (leb 58 c && leb c 64)
    || (leb 91 c && leb c 96)
    || (leb 123 c && leb c 126)

abbrev pub is_digit : ℕ → Bool
is_digit c = leb 48 c && leb c 57

-- std::toupper.
abbrev pub to_upper : ℕ → ℕ
to_upper c = if leb 97 c && leb c 122 then c - 32 else c

-- No character of the class.
abbrev pub lacks : (ℕ → Bool) → Text → Bool
lacks p [] = true
lacks p (c ∷ s) = not (p c) && lacks p s

-- The first character, or the last one, is in the class.
abbrev pub starts : (ℕ → Bool) → Text → Bool
starts p [] = false
starts p (c ∷ s) = p c

abbrev pub ends : (ℕ → Bool) → Text → Bool
ends p [] = false
ends p (c ∷ []) = p c
ends p (c ∷ d ∷ s) = ends p (d ∷ s)

pub lacks-append :
    (p : ℕ → Bool) (s t : Text) → lacks p s ≡ true → lacks p t ≡ true → lacks p (s ++ t) ≡ true
lacks-append p [] t h k = k
lacks-append p (c ∷ s) t h k = ground (arith, lacks-append p s t)

pub ends-append :
    (p : ℕ → Bool) (s : Text) (c : ℕ) (t : Text) → ends p (s ++ c ∷ t) ≡ ends p (c ∷ t)
ends-append p [] c t = refl
ends-append p (a ∷ []) c t = refl
ends-append p (a ∷ b ∷ s) c t = ends-append p (b ∷ s) c t

-- Equal but for the case of letters.
abbrev pub same_letters : Text → Text → Bool
same_letters [] [] = true
same_letters (a ∷ s) (b ∷ t) = to_upper a == to_upper b && same_letters s t
same_letters _ _ = false

-- What ends a keyword or a value on the wire, and what is cut from the end of a line.
abbrev pub is_separator : ℕ → Bool
is_separator c = c == b',' || c == b'='

abbrev pub is_closing : ℕ → Bool
is_closing c = is_punct c || is_space c

-- The 0 that ends a text in C.
abbrev pub is_nul : ℕ → Bool
is_nul c = c == 0

-- std::string::c_str as a function of C reads it: up to the first 0.
abbrev pub c_str : Text → Text
c_str [] = []
c_str (c ∷ s) = if c == 0 then [] else c ∷ c_str s

pub c_str_fixed : (s : Text) → lacks is_nul s ≡ true → c_str s ≡ s
c_str_fixed [] h = refl
c_str_fixed (c ∷ s) h = ground (arith, c_str_fixed s)

-- A text that comes through the wire format whole.
pub record IsWord (t : Text) : Type 0 where
  pub filled : is_empty t ≡ false
  pub one_piece : lacks is_separator t ≡ true
  pub no_space_first : starts is_space t ≡ false
  pub no_closing_last : ends is_closing t ≡ false
  pub no_nul : lacks is_nul t ≡ true
