-- ===== src/Recorder/Resource.antt =====
-- The recorder's resource policy: crates/adc-core/src/recorder/resource.rs.
pub mod Reasons
pub mod Model
pub mod Power
pub mod Policy
pub mod Report
pub mod Agreement
pub mod Limits
