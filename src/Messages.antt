-- ===== src/Messages.antt =====
-- The queue of messages and its thread: airs/src/MessageQueue.h and MessageQueue.cpp.
pub mod Queue
pub mod Registered
pub mod Stop
pub mod Tests
