-- ===== src/Tsn.antt =====
-- The motor control application over time-sensitive networking (tsn).
pub mod IoDevice
pub mod Cyclic
pub mod UserButton
pub mod Controller
pub mod Strategy
pub mod Scenario
pub mod Serial
pub mod Alarm
pub mod Task
