-- ===== src/Tracks.antt =====
-- The detection of moving objects, class AFindPV of airs/src/AFindPV.h and AFindPV.cpp.
pub mod Above
pub mod Batches
pub mod Candidate
pub mod Counts
pub mod Ends
pub mod Ensured
pub mod Finder
pub mod Frames
pub mod Grown
pub mod Invariant
pub mod Keeping
pub mod Matching
pub mod Objects
pub mod Orbits
pub mod Output
pub mod Points
pub mod Related
pub mod Sequence
pub mod Shape
pub mod Sound
pub mod Tests
pub mod Thread
