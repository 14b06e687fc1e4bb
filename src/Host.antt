-- ===== src/Host.antt =====
-- What the program takes from Boost and from floating point: operations that are no part of its
-- sources. `Host` holds them, and `HostLaws` what the documentation of Boost.StringAlgo,
-- Boost.Format and the C++ library promises of them, in the "C" locale.
pub mod Sample
use airs.Base.{ℕ, ◌≡◌, Bool, true, false, List, [], ◌∷◌, ◌++◌}
use airs.Base.Int.{ℤ}
use airs.Base.Text.{Text, same_letters, is_space, is_punct, lacks, starts, ends, is_closing, IsWord}
use airs.Base.Decimal.{Result, ok, decimal}

pub record Host : Type 1 where
  pub Double : Type 0
  -- An integral constant as a double.
  pub of_int : ℤ → Double
  pub lt : Double → Double → Bool
  pub le : Double → Double → Bool
  -- A double stored in a float.
  pub to_float : Double → Double
  -- Stream output of a double or a float at the default precision, and of an int.
  pub print_double : Double → Text
  pub print_int : ℤ → Text
  -- std::stod.
  pub stod : Text → Result Double
  -- boost::iequals.
  pub iequals : Text → Text → Bool
  -- boost::trim, and boost::trim_right_if with a class of characters.
  pub trim : Text → Text
  pub trim_right_if : (ℕ → Bool) → Text → Text
  -- boost::algorithm::split with token_compress_on.
  pub split : (ℕ → Bool) → Text → List Text
  -- boost::format("%1%=%2%,") % keyword % value.
  pub format_kv : Text → Text → Text

pub record HostLaws (h : Host) : Type 0 where
  -- The double that is nearest to the six digits that a stream prints.
  pub rounded : h.Double → h.Double
  -- `stod` throws at the print of a subnormal number, so these are left out.
  pub is_regular : h.Double → Bool
  pub stod-print_double :
      (d : h.Double) → is_regular d ≡ true → h.stod (h.print_double d) ≡ ok (rounded d)
  pub print_double-IsWord : (d : h.Double) → IsWord (h.print_double d)
  pub print_int-decimal : (z : ℤ) → h.print_int z ≡ decimal z
  pub iequals_letters : (s t : Text) → h.iequals s t ≡ same_letters s t
  -- With no space at either end there is nothing to trim.
  pub trim_fixed : (s : Text) → starts is_space s ≡ false → ends is_space s ≡ false → h.trim s ≡ s
  -- The last character goes if it is in the class, and the one before it stays if it is not.
  pub trim_right_if_cut :
      (p : ℕ → Bool) (s : Text) (c : ℕ)
      → p c ≡ true
      → ends p s ≡ false
      → h.trim_right_if p (s ++ c ∷ []) ≡ s
  -- Without a separator there is one token; at a separator that no other one follows, a token ends.
  pub split_one : (p : ℕ → Bool) (s : Text) → lacks p s ≡ true → h.split p s ≡ s ∷ []
  pub split_at :
      (p : ℕ → Bool) (a : Text) (c : ℕ) (b : Text)
      → lacks p a ≡ true
      → p c ≡ true
      → starts p b ≡ false
      → h.split p (a ++ c ∷ b) ≡ a ∷ h.split p b
  pub format_kv_lem : (k v : Text) → h.format_kv k v ≡ k ++ b'=' ∷ v ++ b',' ∷ []
