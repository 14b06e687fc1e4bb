-- ===== src/Badmark.antt =====
-- Bad columns and pixels of the cameras: airs/src/Parameter.h, and their use by the search for moving
-- objects in airs/src/AFindPV.h and AFindPV.cpp.
pub mod Clean
pub mod Doubts
pub mod Hits
pub mod Ids
pub mod Marks
pub mod Registered
pub mod Reload
pub mod RoundTrip
pub mod Spread
pub mod Store
pub mod Suspects
pub mod Tests
