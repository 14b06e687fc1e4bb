-- ===== src/TimeSpace.antt =====
-- The calendar, the leap seconds and the texts of angles of airs/src/ATimeSpace.cpp.
pub mod AngleBounds
pub mod AngleOverrun
pub mod Angles
pub mod Calendar
pub mod Clock
pub mod DayNumber
pub mod Days
pub mod Exact
pub mod Formulas
pub mod Getters
pub mod Kept
pub mod Leap
pub mod LeapRange
pub mod Nutation
pub mod NutationTerms
pub mod Refinement
pub mod RoundTrip
pub mod Sidereal
pub mod Site
pub mod Static
pub mod Sun
pub mod Tests
pub mod Values
pub mod Years
