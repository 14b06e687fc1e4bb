-- ===== src/Daemon.antt =====
-- The daemon: class DoProcess of airs/src/DoProcess.h and DoProcess.cpp.
pub mod Frame
pub mod Receive
pub mod Loop
pub mod Lines
pub mod Engine
pub mod Finders
pub mod Process
pub mod Delivery
pub mod Rounds
pub mod Stages
pub mod Journey
pub mod Overtaken
mod Tests
