-- ===== src/Doubles.antt =====
-- What airs/src/AFindPV.cpp, AMath.cpp and ACatalog.h use of double beside the operations of Real: the
-- functions of <cmath>, the comparisons, and the conversion to int. No laws are asked for.
pub mod Whole
use airs.Base.{Bool}
use airs.Base.Int.{ℤ}
use airs.TimeSpace.Formulas.{Real}

pub record Doubles : Type 1 where
  pub real : Real
  pub fabs : real.Double → real.Double
  pub sqrt : real.Double → real.Double
  pub acos : real.Double → real.Double
  pub le : real.Double → real.Double → Bool
  pub eq : real.Double → real.Double → Bool
  -- int(x).
  pub trunc : real.Double → ℤ
