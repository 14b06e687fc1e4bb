-- ===== src/Net.antt =====
-- TCP communication: class TCPClient of airs/src/tcpasio.h and tcpasio.cpp.
pub mod Circular
pub mod Client
pub mod Transfer
pub mod Search
pub mod Flow
mod Tests
