-- ===== src/Tests.antt =====
-- Witnesses: the theorems at concrete inputs, and runs of the definitions.
mod Recorder
mod Freeze
mod Coverage
mod Logs
mod Disk
mod Freezes
mod Markers
mod Profile
mod Trigger
mod Conditions
mod Overhead
