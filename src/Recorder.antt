-- ===== src/Recorder.antt =====
-- The flight recorder: crates/adc-core/src/recorder.
pub mod Model
pub mod Validation
pub mod Counts
pub mod Ring
pub mod Governor
pub mod Budget
pub mod Loss
pub mod Coverage
pub mod Resource
pub mod Status
pub mod Logs
pub mod Freezer
pub mod Markers
