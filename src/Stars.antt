-- ===== src/Stars.antt =====
-- The star catalogues: airs/src/ACatalog.h, ACatalog.cpp, ACatUCAC4.h and ACatUCAC4.cpp.
pub mod Border
pub mod Found
pub mod Item
pub mod Kept
pub mod Rows
pub mod Search
pub mod Tests
pub mod Zones
