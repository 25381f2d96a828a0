-- ===== src/Trigger.antt =====
-- Triggers: crates/adc-core/src/trigger.rs and the rules of crates/adc-core/src/profile.rs.
pub mod Model
pub mod Rules
pub mod Evaluate
pub mod Outcome
pub mod Decide
pub mod Runtime
pub mod Policy
