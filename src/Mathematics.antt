-- ===== src/Mathematics.antt =====
-- The functions of airs/src/AMath.cpp on arrays: byte order and interpolation.
pub mod Between
pub mod Endian
pub mod Knots
pub mod Lagrange
pub mod Reversal
pub mod Spline
pub mod Tests
pub mod Window
