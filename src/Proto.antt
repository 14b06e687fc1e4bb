-- ===== src/Proto.antt =====
-- The ASCII protocol of the observation system: airs/src/AsciiProtocolBase.h, AsciiProtocol.h and
-- AsciiProtocol.cpp.
pub mod Device
pub mod Data
pub mod Buffer
pub mod Compact
pub mod Fields
pub mod Methods
pub mod Init
pub mod Pairs
pub mod Pointing
pub mod Imaging
pub mod Resolve
pub mod Wire
pub mod Line
pub mod Sent
pub mod Numbers
pub mod Received
pub mod PointingTrip
pub mod ImagingTrip
pub mod OptionalTrip
pub mod RoundTrip
pub mod Lost
mod Tests
