-- ===== src/Recorder/Freezer.antt =====
-- The freezing of an incident: crates/adc-core/src/recorder/freezer.rs.
pub mod Model
pub mod Store
pub mod Window
pub mod Marker
pub mod Trigger
pub mod Entry
pub mod Writes
pub mod Plans
pub mod Validity
